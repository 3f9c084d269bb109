-- ===== src/App/Requests.antt =====
-- main/app_main.cpp, `KwsTask`: when a round of its loop asks for a stream.
use vaani_edge.Base.{
  ℕ, ◌≡◌, ap, sym, ◌∙◌, Bool, false, ◌⊎◌, inl, inr, some, List, [], ◌∷◌, ◌++◌, length, arith,
}
use vaani_edge.Float.{Float}
use vaani_edge.Trigger.{TriggerStateMachine, listening, streaming, update, force_state}
use vaani_edge.App.Keyword.{Rtos, Stages, Listener, is_detected, kws_round}
use vaani_edge.App.Outcome.{IsComputed, IsScored, Fit, Outcome, kept, missed, sent, full}
use vaani_edge.App.Round.{kws_round_total}

module _ {F : Type 0} ⦃f : Float F⦄ where
  pub update_miss :
      (p : F) (m : TriggerStateMachine F)
      → m.state ≡ listening
      → is_detected (update p m).state ≡ false
      → (update p m).state ≡ listening
  unfolding update
  update_miss p m e miss = ground arith

module _ {F : Type 0} ⦃f : Float F⦄ {os : Rtos} where
  -- A round changes the state of the trigger only from `listening` to `streaming`, and exactly then
  -- the queue takes a request, whose session id has 16 bytes.
  abbrev pub Settled : Listener F os → Listener F os → Type 0
  Settled s t =
      ((t.trigger.state ≡ s.trigger.state) × (t.requests ≡ s.requests))
      ⊎ ((s.trigger.state ≡ listening)
          × (t.trigger.state ≡ streaming)
          × ((id : List ℕ) × (t.requests ≡ s.requests ++ (id ∷ [])) × (length id ≡ 16)))

  Outcome-Settled :
      (stages : Stages F) (s t : Listener F os)
      → s.trigger.state ≡ listening
      → Outcome stages s.trigger s.requests s.world t
      → Settled s t
  unfolding force_state
  Outcome-Settled stages s t e (kept a b c) = inl (ap (λ (m : TriggerStateMachine F). m.state) a, b)
  Outcome-Settled stages s t e (missed p r miss a b c) =
      inl
        (ap (λ (m : TriggerStateMachine F). m.state) a ∙ update_miss p s.trigger e miss ∙ sym e, b)
  Outcome-Settled stages s t e (sent p id v r hit size ticks taken w a b) =
      inr (e, ap (λ (m : TriggerStateMachine F). m.state) a, (id, b, size))
  Outcome-Settled stages s t e (full p id v r hit ticks none_left w a b) =
      inl (ap (λ (m : TriggerStateMachine F). m.state) a ∙ sym e, b)

  -- A round of the keyword task stays inside its arrays, whether or not the ring buffer's mutex is
  -- granted, if the ring buffer is valid, the window buffer and the feature buffer have their
  -- sizes, the extractor stays inside its arrays, and an inference that reports success scores every
  -- class. All that holds of the objects afterwards too. The state of the trigger and the requests
  -- stay as they were, or the state was `listening` and is `streaming`, and the queue has taken one
  -- request more, with a session id of 16 bytes.
  pub kws_round-Settled :
      (stages : Stages F) (granted : Bool) (s : Listener F os)
      → IsScored stages
      → IsComputed stages
      → Fit s
      → (t : Listener F os) × (ms : ℕ) × (kws_round stages granted s ≡ some (t, ms))
        × Settled s t
        × Fit t
  kws_round-Settled stages granted s scored computed fit =
      let (t, ms, done, after, result) = kws_round_total stages scored computed granted s fit in
      (
        t,
        ms,
        done,
        elim result [
          | inl same ↦ inl (
            ap (λ (u : Listener F os). u.trigger.state) same,
            ap (λ (u : Listener F os). u.requests) same,
          )
          | inr (on, outcome) ↦ Outcome-Settled stages s t on outcome
        ],
        after,
      )
