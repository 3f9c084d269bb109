-- ===== src/App/Round.antt =====
-- main/app_main.cpp, `KwsTask`: every round of its loop comes to one of the outcomes.
use vaani_edge.Base.{
  is_zero, ℕ, ◌≡◌, refl, ap, ◌∙◌, Bool, true, ◌⊎◌, inl, inr, Option, some, List, [], ◌∷◌, ◌++◌,
  arith, ltb, memcpy, splice, Bool-cases, get_elem?, get_elem?_total,
}
use vaani_edge.Float.{Float}
use vaani_edge.Config.{frame_duration_ms}
use vaani_edge.Ring
use vaani_edge.Ring.{RingBuffer}
use vaani_edge.Ring.Total.{get_last_total}
use vaani_edge.Trigger.{
  TriggerStateMachine, listening, streaming, is_listening, update, force_state,
}
use vaani_edge.Trigger.Invariant.{listening_or_not}
use vaani_edge.App.Keyword.{
  Rtos, Stages, Listener, required_samples, keyword_index, word_bytes, session_id, is_detected,
  request_stream, judge, run_inference, infer, with_features, extract, with_window, kws_round,
}
use vaani_edge.App.Outcome.{
  IsComputed, IsScored, Reported, Ticks, here, timed, drawn, Fit, Outcome, kept, missed, sent, full,
}

session_id-word_bytes :
    (r0 r1 r2 r3 : ℕ)
    → session_id r0 r1 r2 r3
      ≡ some (word_bytes r0 ++ (word_bytes r1 ++ (word_bytes r2 ++ word_bytes r3)))
unfolding session_id memcpy splice
session_id-word_bytes r0 r1 r2 r3 = refl

module _ {os : Rtos} where
  Ticks-trans : {u v w : os.World} → Ticks os u v → Ticks os v w → Ticks os u w
  Ticks-trans a here = a
  Ticks-trans a (timed w b) = timed w (Ticks-trans a b)
  Ticks-trans a (drawn w b) = drawn w (Ticks-trans a b)

module _ {F : Type 0} ⦃f : Float F⦄ {os : Rtos} (stages : Stages F) where
  -- Readings of the timer before an outcome belong to it.
  Ticks-Outcome :
      {m : TriggerStateMachine F} {requests : List (List ℕ)} {w v : os.World} {t : Listener F os}
      → Ticks os w v
      → Outcome stages m requests v t
      → Outcome stages m requests w t
  Ticks-Outcome a (kept b c d) = kept b c (Ticks-trans a d)
  Ticks-Outcome a (missed p r h b c d) = missed p r h b c (Ticks-trans a d)
  Ticks-Outcome a (sent p id v r h l d q e b c) = sent p id v r h l (Ticks-trans a d) q e b c
  Ticks-Outcome a (full p id v r h d q e b c) = full p id v r h (Ticks-trans a d) q e b c

  -- What a part of a round makes of `s`.
  abbrev Comes : Listener F os → Option (Listener F os) → Type 0
  Comes s r =
      (t : Listener F os) × (r ≡ some t) × Fit t × Outcome stages s.trigger s.requests s.world t

  request_stream_total :
      (p : F) (m : TriggerStateMachine F) (s : Listener F os)
      → Reported stages p
      → is_detected (update p m).state ≡ true
      → s.trigger ≡ update p m
      → Fit s
      → (t : Listener F os) × (request_stream s ≡ some t)
        × Fit t
        × Outcome stages m s.requests s.world t
  unfolding request_stream
  request_stream_total p m s reported hit e fit =
      let (r0, w0) = os.random s.world in
      let (r1, w1) = os.random w0 in
      let (r2, w2) = os.random w1 in
      let (r3, w3) = os.random w2 in
      let id : List ℕ = word_bytes r0 ++ (word_bytes r1 ++ (word_bytes r2 ++ word_bytes r3)) in
      let ticks : Ticks os s.world w3 = drawn w2 (drawn w1 (drawn w0 (drawn s.world here))) in
      elim (Bool-cases (os.queue_send id w3).0) [
        | inl taken ↦ (
          record s {
            world = (os.queue_send id w3).1;
            trigger = force_state streaming s.trigger;
            requests = s.requests ++ (id ∷ []);
          },
          rw (session_id-word_bytes r0 r1 r2 r3, taken) refl,
          fit,
          sent p id w3 reported hit refl ticks taken refl (ap (force_state streaming) e) refl,
        )
        | inr none_left ↦ (
          record s { world = (os.queue_send id w3).1; trigger = force_state listening s.trigger },
          rw (session_id-word_bytes r0 r1 r2 r3, none_left) refl,
          fit,
          full p id w3 reported hit ticks none_left refl (ap (force_state listening) e) refl,
        )
      ]

  judge_total :
      (p : F) (s : Listener F os)
      → get_elem? s.result.probabilities keyword_index ≡ some p
      → Reported stages p
      → Fit s
      → Comes s (judge s)
  unfolding judge
  judge_total p s found reported fit =
      let u : Listener F os = record s { trigger = update p s.trigger } in
      elim (Bool-cases (is_detected (update p s.trigger).state)) [
        | inl hit ↦ rw (found, hit) (request_stream_total p s.trigger u reported hit refl fit)
        | inr miss ↦ (u, rw (found, miss) refl, fit, missed p reported miss refl refl here)
      ]

  kws_round_listening :
      (granted : Bool) (s t : Listener F os) (ring : RingBuffer ℕ) (window : List ℕ) (got : ℕ)
      → s.trigger.state ≡ listening
      → Ring.get_last granted (some s.window_buffer) required_samples s.ring
        ≡ some (ring, window, got)
      → with_window stages got (record s { ring = ring; window_buffer = window }) ≡ some t
      → kws_round stages granted s ≡ some (t, frame_duration_ms)
  unfolding kws_round
  kws_round_listening granted s t ring window got e read done =
      let on : is_listening s.trigger.state ≡ true = ap is_listening e in rw (on, read, done) refl

  module _ (scored : IsScored stages) where
    infer_total : (s : Listener F os) → Fit s → Comes s (infer stages s)
    unfolding infer
    infer_total s fit =
        let u : Listener F os = (run_inference stages s).0 in
        let ticks : Ticks os s.world u.world = timed (os.timer s.world).1 (timed s.world here) in
        elim (Bool-cases (is_zero (run_inference stages s).1)) [
          | inl good ↦
              let (p, found) =
                get_elem?_total u.result.probabilities keyword_index
                  (omega (arith, scored.scores s.features s.result good)) in
              let (t, done, fit', outcome) =
                judge_total p u found
                  (record {
                    features = s.features;
                    result = s.result;
                    success = good;
                    score = found;
                  })
                  fit in
              (t, rw good done, fit', Ticks-Outcome ticks outcome)
          | inr bad ↦ (u, rw bad refl, fit, kept refl refl ticks)
        ]

    module _ (computed : IsComputed stages) where
      extract_total : (s : Listener F os) → Fit s → Comes s (extract stages s)
      unfolding extract
      extract_total s fit =
          let (r, e, size) =
            computed.computes s.window_buffer s.features fit.window_size fit.features_size in
          let u : Listener F os = with_features r.0 s in
          let ticks : Ticks os s.world u.world = timed (os.timer s.world).1 (timed s.world here) in
          let fit' : Fit u = record {
            ring_valid = fit.ring_valid;
            window_size = fit.window_size;
            features_size = size;
          } in
          elim (Bool-cases r.1) [
            | inl good ↦
                let (t, done, after, outcome) = infer_total u fit' in
                (t, rw (e, good) done, after, Ticks-Outcome ticks outcome)
            | inr bad ↦ (u, rw (e, bad) refl, fit', kept refl refl ticks)
          ]

      with_window_total : (got : ℕ) (s : Listener F os) → Fit s → Comes s (with_window stages got s)
      unfolding with_window
      with_window_total got s fit = elim (Bool-cases (ltb got required_samples)) [
        | inl short ↦ (s, rw short refl, fit, kept refl refl here)
        | inr enough ↦ rw enough (extract_total s fit)
      ]

      -- A round of the keyword task that finds its objects fit for it comes to an end inside its
      -- arrays, leaves them fit for the next round, and has one of the four outcomes.
      pub kws_round_total :
          (granted : Bool) (s : Listener F os)
          → Fit s
          → (t : Listener F os) × (ms : ℕ) × (kws_round stages granted s ≡ some (t, ms))
            × Fit t
            × ((t ≡ s)
                ⊎ ((s.trigger.state ≡ listening) × Outcome stages s.trigger s.requests s.world t))
      unfolding kws_round
      kws_round_total granted s fit = elim (listening_or_not s.trigger.state) [
        | inr other ↦ (s, 20, rw other refl, fit, inl refl)
        | inl on ↦
            let (ring, window, got, read, valid, same, most) =
              get_last_total granted s.ring s.window_buffer required_samples fit.ring_valid
                (omega arith) (omega (arith, fit.window_size)) in
            let u : Listener F os = record s { ring = ring; window_buffer = window } in
            let (t, done, after, outcome) = with_window_total got u (record {
              ring_valid = valid;
              window_size = same ∙ fit.window_size;
              features_size = fit.features_size;
            }) in
            (
              t,
              frame_duration_ms,
              kws_round_listening granted s t ring window got on read done,
              after,
              inr (on, outcome),
            )
      ]
