-- ===== src/App/Tasks/Priority.antt =====
-- The two tasks on one core, where `KwsTask` (priority 8) is not interrupted by `StreamingTask`
-- (priority 5) between a detection and the state that it forces for it.
use vaani_edge.Base.{
  ℕ, ◌+◌, ◌≤◌, ◌≡◌, refl, ap, sym, subst, Bool, true, false, Option, none, some, List, [], ◌∷◌,
  ◌++◌, arith, length, length-append, ltb, if◌then◌else◌, inl, inr, Bool-cases,
}
use vaani_edge.Float.{Float}
use vaani_edge.Trigger.{
  TriggerStateMachine, AppState, listening, keyword_detected, is_listening, force_state,
}
use vaani_edge.Trigger.Invariant.{listening_or_not}
use vaani_edge.App.Tasks.{
  Watch, looking, checked, detected, queued, refused, Stream, waiting, serving, recovering,
  completing, System, Turn, watcher, streamer, queue_length, judged, watch_step, receive,
  stream_step, step, start,
}
use vaani_edge.App.Tasks.Requested.{outstanding, busy, update_detects, receive_keeps}

abbrev pub in_request : Watch → Bool
in_request looking = false
in_request checked = false
in_request _ = true

module _ {F : Type 0} ⦃f : Float F⦄ where
  -- `StreamingTask` gets no turn while `KwsTask` is in its request.
  unfoldable pub step_prioritised : Turn F → System F → System F
  unfolding step
  step_prioritised (watcher score id) s = step (watcher score id) s
  step_prioritised (streamer delivered) s =
      if in_request s.watch then s else step (streamer delivered) s

  unfoldable pub run_prioritised : List (Turn F) → System F → System F
  run_prioritised [] s = s
  run_prioritised (turn ∷ turns) s = run_prioritised turns (step_prioritised turn s)

-- The trigger listens exactly while no request is under way.
abbrev pub InStep : Watch → AppState → ℕ → Type 0
InStep looking state n = (n ≤ 1) × (state ≡ listening → n ≡ 0) × (n ≡ 0 → state ≡ listening)
InStep checked state n = (state ≡ listening) × (n ≡ 0)
InStep detected state n = (state ≡ keyword_detected) × (n ≡ 0)
InStep queued state n = (state ≡ keyword_detected) × (n ≡ 1)
InStep refused state n = (n ≡ 0) × (n ≡ 1)

module _ {F : Type 0} ⦃f : Float F⦄ where
  judged-InStep :
      (score : Option F) (s : System F)
      → InStep checked s.trigger.state (outstanding s)
      → InStep (judged score s).watch (judged score s).trigger.state (outstanding (judged score s))
  unfolding judged
  judged-InStep none s a = ground arith
  judged-InStep (some p) s a = elim (update_detects p s.trigger a.0) [
    | inl (hit, state) ↦ rw hit (state, a.1)
    | inr (miss, state) ↦ rw miss (ground arith)
  ]

  watch_step-InStep :
      (w : Watch) (score : Option F) (id : List ℕ) (s : System F)
      → s.watch ≡ w
      → InStep w s.trigger.state (outstanding s)
      → let t = watch_step w score id s in InStep t.watch t.trigger.state (outstanding t)
  unfolding watch_step force_state
  watch_step-InStep looking score id s e a = elim (listening_or_not s.trigger.state) [
    | inl on ↦ rw (ap is_listening on) (on, a.1 on)
    | inr off ↦ rw off a
  ]
  watch_step-InStep checked score id s e a = judged-InStep score s a
  watch_step-InStep detected score id s e a =
      let room : ltb (length s.queue) queue_length ≡ true = ground arith in
      rw room (ground (arith, length-append s.queue (id ∷ [])))
  watch_step-InStep queued score id s e a = ground arith
  watch_step-InStep refused score id s e a = ground arith

  stream_step-InStep :
      (place : Stream) (delivered : Bool) (s : System F)
      → s.stream ≡ place
      → in_request s.watch ≡ false
      → InStep s.watch s.trigger.state (outstanding s)
      → let t = stream_step place delivered s in InStep t.watch t.trigger.state (outstanding t)
  unfolding stream_step force_state
  stream_step-InStep waiting delivered s e out a = receive_keeps InStep s.queue s refl e a
  stream_step-InStep serving delivered s e out a = ground arith
  stream_step-InStep recovering delivered s e out a = ground arith
  stream_step-InStep completing delivered s e out a = ground arith

  step_prioritised-InStep :
      (turn : Turn F) (s : System F)
      → InStep s.watch s.trigger.state (outstanding s)
      → let t = step_prioritised turn s in InStep t.watch t.trigger.state (outstanding t)
  unfolding step_prioritised step
  step_prioritised-InStep (watcher score id) s a = watch_step-InStep s.watch score id s refl a
  step_prioritised-InStep (streamer delivered) s a = elim (Bool-cases (in_request s.watch)) [
    | inl busy_there ↦ rw busy_there a
    | inr out ↦ rw out (stream_step-InStep s.stream delivered s refl out a)
  ]

  pub run_prioritised-InStep :
      (turns : List (Turn F)) (s : System F)
      → InStep s.watch s.trigger.state (outstanding s)
      → let t = run_prioritised turns s in InStep t.watch t.trigger.state (outstanding t)
  unfolding run_prioritised
  run_prioritised-InStep [] s a = a
  run_prioritised-InStep (turn ∷ turns) s a =
      run_prioritised-InStep turns (step_prioritised turn s) (step_prioritised-InStep turn s a)

  run_prioritised-append :
      (xs ys : List (Turn F)) (s : System F)
      → run_prioritised (xs ++ ys) s ≡ run_prioritised ys (run_prioritised xs s)
  unfolding run_prioritised
  run_prioritised-append [] ys s = refl
  run_prioritised-append (x ∷ xs) ys s = run_prioritised-append xs ys (step_prioritised x s)

  -- The turns that bring `KwsTask` back to the head of its loop, without a new score.
  abbrev pub settle : List ℕ → Watch → List (Turn F)
  settle id looking = []
  settle id detected = watcher none id ∷ watcher none id ∷ []
  settle id _ = watcher none id ∷ []

  settle-looking :
      (id : List ℕ) (w : Watch) (s : System F)
      → s.watch ≡ w
      → InStep w s.trigger.state (outstanding s)
      → (run_prioritised (settle id w) s).watch ≡ looking
  unfolding run_prioritised step_prioritised step watch_step judged
  settle-looking id looking s e a = e
  settle-looking id checked s e a = rw e refl
  settle-looking id detected s e a =
      let room : ltb (length s.queue) queue_length ≡ true = ground arith in rw (e, room) refl
  settle-looking id queued s e a = rw e refl
  settle-looking id refused s e a = absurd (omega arith)

  abbrev pub streamers : Bool → Bool → Bool → List (Turn F)
  streamers a b c = streamer a ∷ streamer b ∷ streamer c ∷ []

  streamers-listening :
      (t : TriggerStateMachine F) (queue : List (List ℕ)) (place : Stream) (a b c : Bool)
      → InStep looking t.state (length queue + busy place)
      → let r =
          run_prioritised
            (streamers a b c)
            (record { trigger = t; queue = queue; watch = looking; stream = place }) in
        (r.trigger.state ≡ listening) × (outstanding r ≡ 0) × (r.watch ≡ looking)
  unfolding run_prioritised step_prioritised step stream_step receive force_state
  streamers-listening t [] waiting a b c h = (h.2 (omega arith), refl, refl)
  streamers-listening t [] serving true b c h = (refl, refl, refl)
  streamers-listening t [] serving false b c h = (refl, refl, refl)
  streamers-listening t [] recovering a b c h = (refl, refl, refl)
  streamers-listening t [] completing a b c h = (refl, refl, refl)
  streamers-listening t (id ∷ []) waiting a true c h = (refl, refl, refl)
  streamers-listening t (id ∷ []) waiting a false c h = (refl, refl, refl)
  streamers-listening t (id ∷ []) serving a b c h = absurd (omega arith)
  streamers-listening t (id ∷ []) recovering a b c h = absurd (omega arith)
  streamers-listening t (id ∷ []) completing a b c h = absurd (omega arith)
  streamers-listening t (id ∷ id' ∷ rest) place a b c h = absurd (omega arith)

  -- On one core, whatever has happened since the start with a listening trigger: once `KwsTask` is
  -- back at the head of its loop, three turns of `StreamingTask` leave the trigger listening and no
  -- request under way, whether or not the sessions are delivered.
  pub returns_to_listening :
      (turns : List (Turn F)) (t : TriggerStateMachine F) (id : List ℕ) (a b c : Bool)
      → t.state ≡ listening
      → let s = run_prioritised turns (start t) in
        let r = run_prioritised (settle id s.watch ++ streamers a b c) s in
        (r.trigger.state ≡ listening) × (outstanding r ≡ 0) × (r.watch ≡ looking)
  returns_to_listening turns t id a b c e =
      let s : System F = run_prioritised turns (start t) in
      let u : System F = run_prioritised (settle id s.watch) s in
      let in_step = run_prioritised-InStep turns (start t) (ground arith) in
      let home : u.watch ≡ looking = settle-looking id s.watch s refl in_step in
      let at_home =
        subst (λ (w : Watch). InStep w u.trigger.state (outstanding u)) home
          (run_prioritised-InStep (settle id s.watch) s in_step) in
      let same : record { trigger = u.trigger; queue = u.queue; watch = looking; stream = u.stream }
          ≡ u =
        λ i. record u { watch = sym home i } in
      rw (run_prioritised-append (settle id s.watch) (streamers a b c) s) (
        subst
          (λ (v : System F).
            let r = run_prioritised (streamers a b c) v in
            (r.trigger.state ≡ listening) × (outstanding r ≡ 0) × (r.watch ≡ looking))
          same (streamers-listening u.trigger u.queue u.stream a b c at_home))
