-- ===== src/App/Silence.antt =====
-- main/app_main.cpp, `KwsTask`: what becomes of it, however long it runs.
use vaani_edge.Base.{
  ℕ, ◌≡◌, ◌≢◌, refl, ◌∙◌, inl, inr, some, List, [], ◌∷◌, arith, Bool-cases, is_zero, is_zero_lem,
  pos,
}
use Prim.{Unit}
use vaani_edge.Float.{Float}
use vaani_edge.Ring.Valid.{IsValid}
use vaani_edge.Features.{FeatureExtractor}
use vaani_edge.Kws
use vaani_edge.Kws.{Tflm, KwsInference}
use vaani_edge.App.Keyword.{Rtos, Listener, set_sizes}
use vaani_edge.App.Outcome.{Fit}
use vaani_edge.App.Placeholder.{firmware, kws_round-run}
use vaani_edge.App.KwsTask.{Given, Watching, halted, watching, kws_rounds, kws_task}

-- The ring buffers that the rounds find are valid.
abbrev pub AreValid : List Given → Type 0
AreValid [] = Unit
AreValid (g ∷ gs) = IsValid g.ring × AreValid gs

module _ {F : Type 0} ⦃f : Float F⦄ {os : Rtos} where
  kws_rounds-silent :
      (x : FeatureExtractor F) (k : KwsInference F) (gs : List Given) (s : Listener F os)
      → AreValid gs
      → Fit s
      → (t : Listener F os) × (kws_rounds (firmware x k) gs s ≡ some t)
        × (t.trigger ≡ s.trigger)
        × (t.requests ≡ s.requests)
        × Fit t
  unfolding kws_rounds
  kws_rounds-silent x k [] s valid fit = (s, refl, refl, refl, fit)
  kws_rounds-silent x k (g ∷ gs) s (first, valid) fit =
      let u : Listener F os = record s { ring = g.ring } in
      let (t, ms, done, trigger, requests, after) = kws_round-run x k g.granted u (record {
        ring_valid = first;
        window_size = fit.window_size;
        features_size = fit.features_size;
      }) in
      let (v, rest, trigger', requests', last) = kws_rounds-silent x k gs t valid after in
      (v, rw done rest, trigger' ∙ trigger, requests' ∙ requests, last)

  -- What the task comes to: nothing has changed behind a failed `Init`; otherwise the trigger and
  -- the requests are as they were.
  abbrev pub Silent : Tflm F → List ℕ → ℕ → KwsInference F → Listener F os → Watching F os → Type 0
  Silent tflm data_bytes len k s (halted t) =
      ((Kws.initialize tflm data_bytes len k).1 ≢ pos 0) × (t ≡ s)
  Silent tflm data_bytes len k s (watching t) =
      ((Kws.initialize tflm data_bytes len k).1 ≡ pos 0)
      × (t.trigger ≡ s.trigger)
      × (t.requests ≡ s.requests)
      × Fit t

  -- The keyword task of the firmware, whatever TensorFlow Lite Micro, the model and the tables of
  -- the extractor are, however many rounds it runs, on whatever valid ring buffers and whichever
  -- mutex attempts time out: it stays inside its arrays; if `Init` fails it changes nothing, and
  -- otherwise it never changes the trigger and never requests a stream.
  pub kws_task-Silent :
      (tflm : Tflm F) (model_data : List ℕ) (len : ℕ) (x : FeatureExtractor F) (k : KwsInference F)
      (gs : List Given) (s : Listener F os)
      → AreValid gs
      → Fit s
      → (c : Watching F os) × (kws_task tflm model_data len x k gs s ≡ some c)
        × Silent tflm model_data len k s c
  unfolding kws_task
  kws_task-Silent tflm model_data len x k gs s valid fit =
      let loaded : KwsInference F = (Kws.initialize tflm model_data len k).0 in
      let u : Listener F os = record s { metrics = set_sizes s.metrics } in
      elim (Bool-cases (is_zero (Kws.initialize tflm model_data len k).1)) [
        | inl fine ↦
            let (t, done, trigger, requests, after) =
              kws_rounds-silent x loaded gs u valid (record {
                ring_valid = fit.ring_valid;
                window_size = fit.window_size;
                features_size = fit.features_size;
              }) in
            (watching t, rw (fine, done) refl, (is_zero_lem _ fine, trigger, requests, after))
        | inr failed ↦ (halted s, rw failed refl, (λ e. ground arith, refl))
      ]
