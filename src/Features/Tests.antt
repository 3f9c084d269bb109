-- ===== src/Features/Tests.antt =====
-- The extractor on whole hundredths, with one filter of two values.
use vaani_edge.Base.{
  ℕ, ◌≡◌, ◌*◌, ◌++◌, true, some, List, [], ◌∷◌, arith, length-replicate, drop, replicate,
}
use vaani_edge.Float.{hundredths}
use vaani_edge.Config.{num_frames, num_mfcc, window_length_samples}
use vaani_edge.Features.{FeatureExtractor, required_samples, init, compute_frame, compute}
use vaani_edge.Features.Filterbank.{IsShaped, init-IsShaped}
use vaani_edge.Features.Frames.{mfccs, compute-mfccs, compute_frame-take}

abbrev extractor : FeatureExtractor ℕ
extractor = record {
  mel_filterbank = (0 ∷ 100 ∷ []) ∷ [];
  window = replicate window_length_samples 50;
}

abbrev samples : List ℕ
samples = replicate required_samples 16384

compute-mfccs_example :
    compute extractor (some samples) required_samples (some (replicate 2000 0))
    ≡ some (
      true,
      some
          (mfccs extractor samples num_frames 0 ++ drop (num_frames * num_mfcc) (replicate 2000 0)),
    )
compute-mfccs_example =
    compute-mfccs extractor samples required_samples (replicate 2000 0) (omega arith)
      (omega (arith, length-replicate {A = ℕ} required_samples 16384))
      (omega (arith, length-replicate {A = ℕ} 2000 0))

compute_frame-take_example :
    compute_frame extractor (replicate 256 9 ++ (1 ∷ 2 ∷ []))
    ≡ compute_frame extractor (replicate 256 9 ++ (30000 ∷ 0 ∷ []))
compute_frame-take_example =
    compute_frame-take extractor (replicate 256 9) (1 ∷ 2 ∷ []) (30000 ∷ 0 ∷ [])
      (length-replicate {A = ℕ} 256 9)

init-IsShaped_example : (x : FeatureExtractor ℕ) × (init ≡ some x) × IsShaped x
init-IsShaped_example = init-IsShaped
