-- ===== src/App/Kept.antt =====
-- main/app_main.cpp, `KwsTask`: a round of it and the samples of the ring buffer.
use vaani_edge.Base.{
  ℕ, ◌≡◌, ap, sym, ◌∙◌, subst, inl, inr, Bool, some, [], arith, of_bind, Bool-cases, get_elem?,
}
use vaani_edge.Float.{Float}
use vaani_edge.Ring.{RingBuffer}
use vaani_edge.Ring
use vaani_edge.Ring.Stream.{IsRecorded, nothing-IsRecorded, get_last-IsRecorded}
use vaani_edge.App.Keyword.{
  Rtos, Stages, Listener, request_stream, judge, infer, extract, with_window, kws_round,
  required_samples, with_features, run_inference, keyword_index, session_id,
}
use vaani_edge.App.Outcome.{Fit}
use vaani_edge.Trigger.{update, is_listening}

module _ {F : Type 0} ⦃f : Float F⦄ {os : Rtos} where
  request_stream_ring : (s t : Listener F os) → request_stream s ≡ some t → t.ring ≡ s.ring
  unfolding request_stream
  request_stream_ring s t e = ground (arith, of_bind (session_id _ _ _ _) _ _ e)

  judge_ring : (s t : Listener F os) → judge s ≡ some t → t.ring ≡ s.ring
  unfolding judge
  judge_ring s t e =
      let (p, found, rest) = of_bind (get_elem? s.result.probabilities keyword_index) _ _ e in
      ground (arith, request_stream_ring (record s { trigger = update p s.trigger }) t)

  module _ (stages : Stages F) where
    infer_ring : (s t : Listener F os) → infer stages s ≡ some t → t.ring ≡ s.ring
    unfolding infer
    infer_ring s t e = ground (arith, judge_ring (run_inference stages s).0 t)

    extract_ring : (s t : Listener F os) → extract stages s ≡ some t → t.ring ≡ s.ring
    unfolding extract
    extract_ring s t e =
        let ((features, good), computed, rest) =
          of_bind (stages.compute s.window_buffer required_samples s.features) _ _ e in
        ground (arith, infer_ring (with_features features s) t)

    with_window_ring :
        (got : ℕ) (s t : Listener F os) → with_window stages got s ≡ some t → t.ring ≡ s.ring
    unfolding with_window
    with_window_ring got s t e = ground (arith, extract_ring s t)

    -- A round of `KwsTask` leaves the samples of the ring buffer as they are.
    pub kws_round-IsRecorded :
        (granted : Bool) (s t : Listener F os) (ms : ℕ)
        → Fit s
        → kws_round stages granted s ≡ some (t, ms)
        → IsRecorded s.ring [] t.ring
    unfolding kws_round
    kws_round-IsRecorded granted s t ms fit e = elim (Bool-cases (is_listening s.trigger.state)) [
      | inr other ↦
          let both = rw other at e in
          let same : s ≡ t = cc in
          subst (λ x. IsRecorded s.ring [] x.ring) same (nothing-IsRecorded s.ring fit.ring_valid)
      | inl on ↦
          let ((ring, window, got), read, rest) =
            of_bind (Ring.get_last granted (some s.window_buffer) required_samples s.ring) _ _
              (rw on at e) in
          let v : Listener F os = record s { ring = ring; window_buffer = window } in
          let (u, done, last) = of_bind (with_window stages got v) _ _ rest in
          let same : u ≡ t = cc in
          subst (IsRecorded s.ring [])
            (sym (sym (ap (λ x. x.ring) same) ∙ with_window_ring got v u done))
            (get_last-IsRecorded granted s.ring ring s.window_buffer window required_samples got
              fit.ring_valid (omega arith) (omega (arith, fit.window_size)) read)
    ]
