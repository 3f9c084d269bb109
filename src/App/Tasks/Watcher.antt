-- ===== src/App/Tasks/Watcher.antt =====
-- `KwsTask` in the interleaved system is the detailed round of App/Keyword, with the queue of the
-- operating system in sight.
use vaani_edge.Base.{
  ℕ, ◌≡◌, refl, ap, sym, ◌∙◌, Bool, true, false, inl, inr, Option, none, some, List, [], ◌∷◌, ◌++◌,
  length, ltb, if◌then◌else◌,
}
use vaani_edge.Float.{Float}
use vaani_edge.Trigger.{
  TriggerStateMachine, listening, streaming, is_listening, update, force_state,
}
use vaani_edge.App.Keyword.{Rtos, Stages, Listener, is_detected, kws_round}
use vaani_edge.App.Outcome.{
  IsComputed, IsScored, Ticks, here, timed, drawn, Fit, Outcome, kept, missed, sent, full,
}
use vaani_edge.App.Round.{kws_round_total}
use vaani_edge.App.Tasks.{
  looking, Stream, System, Turn, watcher, queue_length, judged, watch_step, step, run,
}

-- A queue of two places: `xQueueSend` without a wait is refused exactly if it is full, and nothing
-- else that the task calls changes it.
pub record IsQueue (os : Rtos) (queue_of : os.World → List (List ℕ)) : Type 0 where
  pub timer_keeps : (w : os.World) → queue_of (os.timer w).1 ≡ queue_of w
  pub random_keeps : (w : os.World) → queue_of (os.random w).1 ≡ queue_of w
  pub send_taken :
      (id : List ℕ) (w : os.World) → (os.queue_send id w).0 ≡ ltb (length (queue_of w)) queue_length
  pub send_queue :
      (id : List ℕ) (w : os.World)
      → queue_of (os.queue_send id w).1
        ≡ (if ltb (length (queue_of w)) queue_length then queue_of w ++ (id ∷ []) else queue_of w)

-- Turns of `KwsTask` only.
abbrev pub watchers : {F : Type 0} → List (Option F × List ℕ) → List (Turn F)
watchers [] = []
watchers ((score, id) ∷ rest) = watcher score id ∷ watchers rest

module _ {F : Type 0} ⦃f : Float F⦄ where
  -- `KwsTask` at the head of its loop.
  abbrev pub at_head : TriggerStateMachine F → List (List ℕ) → Stream → System F
  at_head m queue place = record { trigger = m; queue = queue; watch = looking; stream = place }

  module _ (m : TriggerStateMachine F) (queue : List (List ℕ)) (place : Stream)
      (on : is_listening m.state ≡ true) where
    run_kept :
        run (watchers ((none, []) ∷ (none, []) ∷ [])) (at_head m queue place)
        ≡ at_head m queue place
    unfolding run step watch_step judged
    run_kept = rw on refl

    run_missed :
        (p : F)
        → is_detected (update p m).state ≡ false
        → run (watchers ((none, []) ∷ (some p, []) ∷ [])) (at_head m queue place)
          ≡ at_head (update p m) queue place
    unfolding run step watch_step judged
    run_missed p miss = rw (on, miss) refl

    run_sent :
        (p : F) (id : List ℕ)
        → is_detected (update p m).state ≡ true
        → ltb (length queue) queue_length ≡ true
        → run
            (watchers ((none, []) ∷ (some p, []) ∷ (none, id) ∷ (none, []) ∷ []))
            (at_head m queue place)
          ≡ at_head (force_state streaming (update p m)) (queue ++ (id ∷ [])) place
    unfolding run step watch_step judged
    run_sent p id hit room = rw (on, hit, room) refl

    run_full :
        (p : F) (id : List ℕ)
        → is_detected (update p m).state ≡ true
        → ltb (length queue) queue_length ≡ false
        → run
            (watchers ((none, []) ∷ (some p, []) ∷ (none, id) ∷ (none, []) ∷ []))
            (at_head m queue place)
          ≡ at_head (force_state listening (update p m)) queue place
    unfolding run step watch_step judged
    run_full p id hit room = rw (on, hit, room) refl

module _ (os : Rtos) (queue_of : os.World → List (List ℕ)) (laws : IsQueue os queue_of) where
  pub Ticks-queue : {v w : os.World} → Ticks os v w → queue_of w ≡ queue_of v
  Ticks-queue here = refl
  Ticks-queue (timed w a) = laws.timer_keeps w ∙ Ticks-queue a
  Ticks-queue (drawn w a) = laws.random_keeps w ∙ Ticks-queue a

  module _ {F : Type 0} ⦃f : Float F⦄ (stages : Stages F) where
    -- The listener in the system, with `StreamingTask` at some place.
    abbrev pub view : Stream → Listener F os → System F
    view place s = at_head s.trigger (queue_of s.world) place

    Outcome-watchers :
        (place : Stream) (s t : Listener F os)
        → is_listening s.trigger.state ≡ true
        → Outcome stages s.trigger s.requests s.world t
        → (turns : List (Option F × List ℕ)) × (run (watchers turns) (view place s) ≡ view place t)
    Outcome-watchers place s t on (kept a b c) = (
      (none, []) ∷ (none, []) ∷ [],
      run_kept s.trigger (queue_of s.world) place on ∙ λ i.
          at_head (sym a i) (sym (Ticks-queue c) i) place,
    )
    Outcome-watchers place s t on (missed p r miss a b c) = (
      (none, []) ∷ (some p, []) ∷ [],
      run_missed s.trigger (queue_of s.world) place on p miss ∙ λ i.
          at_head (sym a i) (sym (Ticks-queue c) i) place,
    )
    Outcome-watchers place s t on (sent p id v r hit size ticks taken w a b) =
        let room : ltb (length (queue_of s.world)) queue_length ≡ true =
          ap (λ (q : List (List ℕ)). ltb (length q) queue_length) (sym (Ticks-queue ticks))
          ∙ (sym (laws.send_taken id v) ∙ taken) in
        let room' = sym (laws.send_taken id v) ∙ taken in
        let queue : queue_of t.world ≡ queue_of s.world ++ (id ∷ []) =
          ap queue_of w
          ∙ (laws.send_queue id v
              ∙ rw room' (ap (λ (q : List (List ℕ)). q ++ (id ∷ [])) (Ticks-queue ticks))) in
        (
          (none, []) ∷ (some p, []) ∷ (none, id) ∷ (none, []) ∷ [],
          run_sent s.trigger (queue_of s.world) place on p id hit room ∙ λ i.
              at_head (sym a i) (sym queue i) place,
        )
    Outcome-watchers place s t on (full p id v r hit ticks none_left w a b) =
        let room : ltb (length (queue_of s.world)) queue_length ≡ false =
          ap (λ (q : List (List ℕ)). ltb (length q) queue_length) (sym (Ticks-queue ticks))
          ∙ (sym (laws.send_taken id v) ∙ none_left) in
        let room' = sym (laws.send_taken id v) ∙ none_left in
        let queue : queue_of t.world ≡ queue_of s.world =
          ap queue_of w ∙ (laws.send_queue id v ∙ rw room' (Ticks-queue ticks)) in
        (
          (none, []) ∷ (some p, []) ∷ (none, id) ∷ (none, []) ∷ [],
          run_full s.trigger (queue_of s.world) place on p id hit room ∙ λ i.
              at_head (sym a i) (sym queue i) place,
        )

    -- A round of the keyword task on fit objects, over a queue of two places, is a sequence of its
    -- turns in the interleaved system: they lead from the trigger and the queue before the round to
    -- those after it.
    pub kws_round-watchers :
        (granted : Bool) (place : Stream) (s : Listener F os)
        → IsScored stages
        → IsComputed stages
        → Fit s
        → (t : Listener F os) × (ms : ℕ) × (kws_round stages granted s ≡ some (t, ms))
          × ((turns : List (Option F × List ℕ)) × (run (watchers turns) (view place s)
                ≡ view place t))
    unfolding run
    kws_round-watchers granted place s scored computed fit =
        let (t, ms, done, after, result) = kws_round_total stages scored computed granted s fit in
        (
          t,
          ms,
          done,
          elim result [
            | inl same ↦ ([], ap (view place) (sym same))
            | inr (on, outcome) ↦ Outcome-watchers place s t (ap is_listening on) outcome
          ],
        )
