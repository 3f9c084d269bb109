-- ===== src/App/Tasks/Stuck.antt =====
-- A session that ends before `KwsTask` has forced `kStreaming`: nothing undoes that state.
use vaani_edge.Base.{ℕ, ◌≡◌, refl, sym, subst, Bool, true, false, none, List, [], ◌∷◌}
use vaani_edge.Float.{Float}
use vaani_edge.Trigger.{TriggerStateMachine, is_listening, force_state}
use vaani_edge.App.Tasks.{
  Watch, looking, detected, waiting, System, Turn, watcher, streamer, watch_step, receive,
  stream_step, step, run,
}
use vaani_edge.App.Tasks.Requested.{outstanding, Agrees, idle, IsSound}

-- The trigger does not listen, and no task has anything to do.
pub record IsStuck {F : Type 0} (s : System F) : Type 0 where
  pub not_listening : is_listening s.trigger.state ≡ false
  pub no_request : s.queue ≡ []
  pub looks : s.watch ≡ looking
  pub waits : s.stream ≡ waiting

module _ {F : Type 0} ⦃f : Float F⦄ where
  step-IsStuck : (turn : Turn F) (s : System F) → IsStuck s → step turn s ≡ s
  unfolding step watch_step stream_step receive
  step-IsStuck (watcher score id) s h = rw (h.looks, h.not_listening) refl
  step-IsStuck (streamer delivered) s h = rw (h.waits, h.no_request) refl

  -- Once stuck, the system is stuck for ever: no sequence of steps changes anything.
  pub run-IsStuck : (turns : List (Turn F)) (s : System F) → IsStuck s → run turns s ≡ s
  unfolding run
  run-IsStuck [] s h = refl
  run-IsStuck (turn ∷ turns) s h = rw (step-IsStuck turn s h) (run-IsStuck turns s h)

  -- `KwsTask` sends its request; `StreamingTask` takes it and ends its session; then `KwsTask`
  -- forces `kStreaming`.
  abbrev pub overtaken : List ℕ → Bool → List (Turn F)
  overtaken id delivered =
      watcher none id
      ∷ streamer delivered
      ∷ streamer delivered
      ∷ streamer delivered
      ∷ watcher none id
      ∷ []

  overtaken_lem :
      (id : List ℕ) (delivered : Bool) (t : TriggerStateMachine F)
      → IsStuck (
          run
            (overtaken id delivered)
            (record { trigger = t; queue = []; watch = detected; stream = waiting }))
  unfolding run step watch_step stream_step receive force_state
  overtaken_lem id true t = record {
    not_listening = refl;
    no_request = refl;
    looks = refl;
    waits = refl;
  }
  overtaken_lem id false t = record {
    not_listening = refl;
    no_request = refl;
    looks = refl;
    waits = refl;
  }

  at_detected :
      (s : System F)
      → IsSound s
      → s.watch ≡ detected
      → s ≡ record { trigger = s.trigger; queue = []; watch = detected; stream = waiting }
  at_detected s h e =
      let agreed : Agrees detected s.trigger.state (outstanding s) =
        subst (λ (w : Watch). Agrees w s.trigger.state (outstanding s)) e h.agrees in
      let (q, w) = idle s.queue s.stream agreed.1 in
      λ i. record { trigger = s.trigger; queue = q i; watch = e i; stream = w i }

  -- From every sound system in which the keyword has just been detected there is an order of steps
  -- that ends with the trigger in a state other than `listening` for good.
  pub overtaken-IsStuck :
      (id : List ℕ) (delivered : Bool) (turns : List (Turn F)) (s : System F)
      → IsSound s
      → s.watch ≡ detected
      → let t = run (overtaken id delivered) s in IsStuck t × (run turns t ≡ t)
  overtaken-IsStuck id delivered turns s h e =
      let stuck =
        subst (λ (r : System F). IsStuck (run (overtaken id delivered) r)) (sym (at_detected s h e))
          (overtaken_lem id delivered s.trigger) in
      (stuck, run-IsStuck turns _ stuck)
