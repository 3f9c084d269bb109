-- ===== src/App/Tasks/Requested.antt =====
-- How many requests are under way: kept by every step of either task, in every order.
use vaani_edge.Base.{
  ℕ, ◌+◌, ◌≤◌, ◌≡◌, ◌≢◌, refl, ap, Bool, true, false, Option, none, some, List, [], ◌∷◌, arith,
  length, length-append, ltb, inl, inr, ◌⊎◌, Bool-cases,
}
use vaani_edge.Float.{Float}
use vaani_edge.Trigger.{
  TriggerStateMachine, AppState, listening, keyword_detected, streaming, session_complete,
  error_recovery, is_listening, update, force_state,
}
use vaani_edge.Trigger.Invariant.{listening_or_not, IsValid, update-IsValid, force_state-IsValid}
use vaani_edge.App.Keyword.{is_detected}
use vaani_edge.App.Tasks.{
  Watch, looking, checked, detected, queued, refused, Stream, waiting, serving, recovering,
  completing, System, Turn, watcher, streamer, queue_length, judged, watch_step, receive,
  stream_step, step, run, start,
}

-- Requests in the queue, and the one that `StreamingTask` has taken.
abbrev pub busy : Stream → ℕ
busy waiting = 0
busy _ = 1

abbrev pub outstanding : {F : Type 0} → System F → ℕ
outstanding s = length s.queue + busy s.stream

-- What the place of `KwsTask` says of the state and of the number of requests under way. A request
-- is never refused, since none is under way when one is sent.
abbrev pub Agrees : Watch → AppState → ℕ → Type 0
Agrees looking state n = (n ≤ 1) × (state ≡ listening → n ≡ 0)
Agrees checked state n = (state ≡ listening) × (n ≡ 0)
Agrees detected state n = (state ≡ keyword_detected) × (n ≡ 0)
Agrees queued state n = (n ≤ 1) × (state ≡ listening → n ≡ 0) × (n ≡ 0 → state ≡ listening)
Agrees refused state n = (n ≡ 0) × (n ≡ 1)

pub record IsSound {F : Type 0} (s : System F) : Type 0 where
  pub trigger_valid : IsValid s.trigger
  pub agrees : Agrees s.watch s.trigger.state (outstanding s)

agreed :
    (w : Watch) (state : AppState) (n : ℕ)
    → Agrees w state n
    → (n ≤ 1) × (w ≢ refused) × (w ≡ looking → state ≡ listening → n ≡ 0)
agreed looking state n a = (a.0, λ e. cc, λ e. a.1)
agreed checked state n a = (omega arith, λ e. cc, λ e. cc)
agreed detected state n a = (omega arith, λ e. cc, λ e. cc)
agreed queued state n a = (a.0, λ e. cc, λ e. cc)
agreed refused state n a = absurd (omega arith)

-- No request in the queue, and none in a session.
pub idle :
    (queue : List (List ℕ)) (place : Stream)
    → length queue + busy place ≡ 0
    → (queue ≡ []) × (place ≡ waiting)
idle [] waiting h = (refl, refl)
idle [] serving h = absurd (omega arith)
idle [] recovering h = absurd (omega arith)
idle [] completing h = absurd (omega arith)
idle (id ∷ rest) place h = absurd (omega arith)

module _ {F : Type 0} ⦃f : Float F⦄ where
  pub update_detects :
      (p : F) (t : TriggerStateMachine F)
      → t.state ≡ listening
      → ((is_detected (update p t).state ≡ true) × ((update p t).state ≡ keyword_detected))
        ⊎ ((is_detected (update p t).state ≡ false) × ((update p t).state ≡ listening))
  unfolding update
  update_detects p t e = rw e (ground arith)

  judged-Agrees :
      (score : Option F) (s : System F)
      → Agrees checked s.trigger.state (outstanding s)
      → Agrees (judged score s).watch (judged score s).trigger.state (outstanding (judged score s))
  unfolding judged
  judged-Agrees none s a = ground arith
  judged-Agrees (some p) s a = elim (update_detects p s.trigger a.0) [
    | inl (hit, state) ↦ rw hit (state, a.1)
    | inr (miss, state) ↦ rw miss (ground arith)
  ]

  -- Taking a request from the queue changes only where it is.
  pub receive_keeps :
      (P : Watch → AppState → ℕ → Type 0) (queue : List (List ℕ)) (s : System F)
      → s.queue ≡ queue
      → s.stream ≡ waiting
      → P s.watch s.trigger.state (outstanding s)
      → let t = receive queue s in P t.watch t.trigger.state (outstanding t)
  unfolding receive
  receive_keeps P [] s q e a = a
  receive_keeps P (id ∷ rest) s q e a =
      let same : length rest + 1 ≡ outstanding s = ground arith in rw same a

  watch_step-Agrees :
      (w : Watch) (score : Option F) (id : List ℕ) (s : System F)
      → s.watch ≡ w
      → Agrees w s.trigger.state (outstanding s)
      → let t = watch_step w score id s in Agrees t.watch t.trigger.state (outstanding t)
  unfolding watch_step force_state
  watch_step-Agrees looking score id s e a = elim (listening_or_not s.trigger.state) [
    | inl on ↦ rw (ap is_listening on) (on, a.1 on)
    | inr off ↦ rw off a
  ]
  watch_step-Agrees checked score id s e a = judged-Agrees score s a
  watch_step-Agrees detected score id s e a =
      let room : ltb (length s.queue) queue_length ≡ true = ground arith in
      rw room (ground (arith, length-append s.queue (id ∷ [])))
  watch_step-Agrees queued score id s e a = ground arith
  watch_step-Agrees refused score id s e a = ground arith

  stream_step-Agrees :
      (place : Stream) (delivered : Bool) (s : System F)
      → s.stream ≡ place
      → Agrees s.watch s.trigger.state (outstanding s)
      → let t = stream_step place delivered s in Agrees t.watch t.trigger.state (outstanding t)
  unfolding stream_step force_state
  stream_step-Agrees waiting delivered s e a = receive_keeps Agrees s.queue s refl e a
  stream_step-Agrees serving delivered s e a = ground arith
  stream_step-Agrees recovering delivered s e a = ground arith
  stream_step-Agrees completing delivered s e a = ground arith

  watch_step-IsValid :
      (w : Watch) (score : Option F) (id : List ℕ) (s : System F)
      → IsValid s.trigger
      → IsValid (watch_step w score id s).trigger
  unfolding watch_step judged
  watch_step-IsValid looking score id s v = v
  watch_step-IsValid checked none id s v = v
  watch_step-IsValid checked (some p) id s v = update-IsValid p s.trigger v
  watch_step-IsValid detected score id s v = elim (Bool-cases (ltb (length s.queue) queue_length)) [
    | inl room ↦ rw room v
    | inr full ↦ rw full v
  ]
  watch_step-IsValid queued score id s v = force_state-IsValid streaming s.trigger v
  watch_step-IsValid refused score id s v = force_state-IsValid listening s.trigger v

  receive-IsValid :
      (queue : List (List ℕ)) (s : System F) → IsValid s.trigger → IsValid (receive queue s).trigger
  unfolding receive
  receive-IsValid [] s v = v
  receive-IsValid (id ∷ rest) s v = v

  stream_step-IsValid :
      (place : Stream) (delivered : Bool) (s : System F)
      → IsValid s.trigger
      → IsValid (stream_step place delivered s).trigger
  unfolding stream_step
  stream_step-IsValid waiting delivered s v = receive-IsValid s.queue s v
  stream_step-IsValid serving true s v = force_state-IsValid session_complete s.trigger v
  stream_step-IsValid serving false s v = force_state-IsValid error_recovery s.trigger v
  stream_step-IsValid recovering delivered s v = force_state-IsValid listening s.trigger v
  stream_step-IsValid completing delivered s v = force_state-IsValid listening s.trigger v

  -- Every step of either task keeps the invariant.
  pub step-IsSound : (turn : Turn F) (s : System F) → IsSound s → IsSound (step turn s)
  unfolding step
  step-IsSound (watcher score id) s h = record {
    trigger_valid = watch_step-IsValid s.watch score id s h.trigger_valid;
    agrees = watch_step-Agrees s.watch score id s refl h.agrees;
  }
  step-IsSound (streamer delivered) s h = record {
    trigger_valid = stream_step-IsValid s.stream delivered s h.trigger_valid;
    agrees = stream_step-Agrees s.stream delivered s refl h.agrees;
  }

  pub start-IsSound :
      (t : TriggerStateMachine F) → IsValid t → t.state ≡ listening → IsSound (start t)
  start-IsSound t v e = record { trigger_valid = v; agrees = ground arith }

  pub run-IsSound : (turns : List (Turn F)) (s : System F) → IsSound s → IsSound (run turns s)
  unfolding run
  run-IsSound [] s h = h
  run-IsSound (turn ∷ turns) s h = run-IsSound turns (step turn s) (step-IsSound turn s h)

  -- Whatever the order in which the two tasks go, from a valid listening trigger, an empty queue
  -- and both tasks at rest: the trigger stays valid; at most one request is in the queue or in a
  -- session; the queue never refuses one; and none is under way while `KwsTask` stands at the head
  -- of its loop and the trigger is listening.
  pub outstanding-run :
      (turns : List (Turn F)) (t : TriggerStateMachine F)
      → IsValid t
      → t.state ≡ listening
      → let s = run turns (start t) in
        IsValid s.trigger
        × (outstanding s ≤ 1)
        × (s.watch ≢ refused)
        × (s.watch ≡ looking → s.trigger.state ≡ listening → outstanding s ≡ 0)
  outstanding-run turns t v e =
      let h = run-IsSound turns (start t) (start-IsSound t v e) in
      let (few, taken, none_there) = agreed _ _ _ h.agrees in
      (h.trigger_valid, few, taken, none_there)
