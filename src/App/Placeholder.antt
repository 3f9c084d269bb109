-- ===== src/App/Placeholder.antt =====
-- main/app_main.cpp, `KwsTask`, with the extractor of components/feature_extractor and the
-- inference of components/kws_inference.
use vaani_edge.Base.{
  is_zero, ℕ, ◌*◌, ◌≡◌, refl, ap, ℤ, Bool, true, false, inl, inr, Option, some, List, ◌++◌, arith,
  length-append, length-drop, drop, ◌>>=◌,
}
use vaani_edge.Float.{Float}
use vaani_edge.Config.{num_frames, num_mfcc}
use vaani_edge.Features
use vaani_edge.Features.{FeatureExtractor}
use vaani_edge.Features.Frames.{mfccs, length-mfccs, compute-mfccs}
use vaani_edge.Kws
use vaani_edge.Kws.{KwsResult, KwsInference}
use vaani_edge.App.Keyword.{Rtos, Stages, Listener, required_samples, kws_round}
use vaani_edge.App.Outcome.{IsComputed, IsScored, Reported, Fit, Outcome, kept, missed, sent, full}
use vaani_edge.App.Round.{kws_round_total}

module _ {F : Type 0} ⦃f : Float F⦄ where
  -- `Compute` as the task calls it, on arrays.
  unfoldable pub extractor_stage : FeatureExtractor F → List ℕ → ℕ → List F → Option (List F × Bool)
  extractor_stage x window num_samples features =
      Features.compute x (some window) num_samples (some features) >>= λ (feature_ok, out).
      out >>= λ filled. some (filled, feature_ok)

  -- The task's stages as they are.
  abbrev pub firmware : FeatureExtractor F → KwsInference F → Stages F
  firmware x k = record { compute = extractor_stage x; run = Kws.run k }

  -- With any inference, the extractor meets what the task relies on.
  pub firmware-IsComputed :
      (x : FeatureExtractor F) (run : List F → KwsResult F → KwsResult F × ℤ)
      → IsComputed (record { compute = extractor_stage x; run = run })
  unfolding extractor_stage
  firmware-IsComputed x run = record {
    computes = λ window features size room. (
      (mfccs x window num_frames 0 ++ drop (num_frames * num_mfcc) features, true),
      rw
          (compute-mfccs x window required_samples features (omega arith) (omega (arith, size))
            (omega (arith, room)))
          refl,
      omega (
        arith,
        room,
        length-append (mfccs x window num_frames 0) (drop (num_frames * num_mfcc) features),
        length-mfccs x window num_frames 0,
        length-drop (num_frames * num_mfcc) features,
      ),
    );
  }

  run-is_zero :
      (k : KwsInference F) (features : List F) (result : KwsResult F)
      → is_zero (Kws.run k features result).1 ≡ false
  unfolding Kws.run
  run-is_zero k features result = ground arith

  firmware-IsScored : (x : FeatureExtractor F) (k : KwsInference F) → IsScored (firmware x k)
  firmware-IsScored x k = record {
    scores = λ features result good. ground (arith, run-is_zero k features result, good);
  }

  never-Reported :
      (x : FeatureExtractor F) (k : KwsInference F) (p : F) → ¬ Reported (firmware x k) p
  never-Reported x k p r = ground (arith, run-is_zero k r.features r.result, r.success)

module _ {F : Type 0} ⦃f : Float F⦄ {os : Rtos} (x : FeatureExtractor F) (k : KwsInference F) where
  silent :
      (s t : Listener F os)
      → Outcome (firmware x k) s.trigger s.requests s.world t
      → (t.trigger ≡ s.trigger) × (t.requests ≡ s.requests)
  silent s t (kept a b c) = (a, b)
  silent s t (missed p r h a b c) = absurd (never-Reported x k p r)
  silent s t (sent p id v r h l d q e b c) = absurd (never-Reported x k p r)
  silent s t (full p id v r h d q e b c) = absurd (never-Reported x k p r)

  -- With the extractor and the inference of the firmware, whatever tables the one has and whether or
  -- not the other has loaded its model: a round of the keyword task on a valid ring buffer, with a
  -- window buffer and a feature buffer of their sizes, comes to an end and leaves the trigger and
  -- the requests as they are. No keyword is ever detected.
  pub kws_round-run :
      (granted : Bool) (s : Listener F os)
      → Fit s
      → (t : Listener F os) × (ms : ℕ) × (kws_round (firmware x k) granted s ≡ some (t, ms))
        × (t.trigger ≡ s.trigger)
        × (t.requests ≡ s.requests)
        × Fit t
  kws_round-run granted s fit =
      let (t, ms, done, after, result) =
        kws_round_total (firmware x k) (firmware-IsScored x k) (firmware-IsComputed x (Kws.run k))
          granted s fit in
      elim result [
        | inl same ↦ (
          t,
          ms,
          done,
          ap (λ (u : Listener F os). u.trigger) same,
          ap (λ (u : Listener F os). u.requests) same,
          after,
        )
        | inr (on, outcome) ↦
            let (trigger, requests) = silent s t outcome in (t, ms, done, trigger, requests, after)
      ]
