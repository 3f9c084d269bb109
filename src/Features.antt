-- ===== src/Features.antt =====
-- components/feature_extractor: `class FeatureExtractor`, which turns a second of samples into
-- MFCCs, over the interface `Float`. Every float expression keeps the source's order of operations.
-- An array that a loop fills from end to end is the list of its values.
pub mod Filterbank
pub mod Frames
mod Tests
use vaani_edge.Base.{
  put, ℕ, zero, suc, ◌+◌, ◌-◌, ◌*◌, Bool, true, false, Option, none, some, List, [], ◌∷◌, ltb, leb,
  if◌then◌else◌, ◌>>=◌, min, length, take, drop, get_elem?, memcpy, replicate, ℤ, pos, negsuc,
}
use vaani_edge.Float.{Float}
use vaani_edge.Config.{
  pre_emphasis, fft_size, num_mel_bins, num_mfcc, num_frames, sample_rate_hz, window_length_samples,
  hop_length_samples,
}

pub record FeatureExtractor (F : Type 0) : Type 0 where
  pub mel_filterbank : List (List F)
  pub window : List F

abbrev pub n_bins : ℕ
n_bins = 129

abbrev pub required_samples : ℕ
required_samples = window_length_samples + (num_frames - 1) * hop_length_samples

-- `value k`, `value (k + 1)`, ... for `count` rounds of a loop.
unfoldable pub tabulate : {A : Type 0} → (ℕ → A) → ℕ → ℕ → List A
tabulate value zero k = []
tabulate value (suc count) k = value k ∷ tabulate value count (suc k)

-- A loop that writes `value k` to index `k`, for `count` indices.
unfoldable pub fill : {A : Type 0} → (ℕ → A) → ℕ → ℕ → List A → Option (List A)
fill value zero k row = some row
fill value (suc count) k row = put row k (value k) >>= λ next. fill value count (suc k) next

-- The value of an int16_t with these 16 bits.
unfoldable pub int16 : ℕ → ℤ
int16 x = if ltb x 32768 then pos x else negsuc (65535 - x)

abbrev pub clamp_bin : ℤ → ℕ
clamp_bin (negsuc k) = 0
clamp_bin (pos k) = if leb n_bins k then n_bins - 1 else k

module _ {F : Type 0} ⦃f : Float F⦄ where
  abbrev pub int : ℕ → F
  int n = f.of_int (pos n)

  abbrev pub pi : F
  pi = f.lit 314159265358979323846 20

  unfoldable pub hz_to_mel : F → F
  hz_to_mel hz = f.mul (f.lit 2595 0) (f.log10 (f.add (f.lit 1 0) (f.div hz (f.lit 700 0))))

  unfoldable pub mel_to_hz : F → F
  mel_to_hz mel =
      f.mul (f.lit 700 0) (f.sub (f.pow (f.lit 10 0) (f.div mel (f.lit 2595 0))) (f.lit 1 0))

  -- One value of the window that the constructor fills.
  unfoldable pub window_at : ℕ → F
  window_at i = f.sub (f.lit 5 1) (
      f.mul (f.lit 5 1)
        (f.cos (f.div (f.mul (f.mul (f.lit 2 0) pi) (int i)) (int (window_length_samples - 1)))))

  -- The frequency of the `i`-th mel point.
  unfoldable pub point_hz : ℕ → F
  unfolding hz_to_mel mel_to_hz
  point_hz i =
      let mel_min = hz_to_mel (f.lit 300 0) in
      let mel_max = hz_to_mel (f.lit 8000 0) in
      mel_to_hz
        (f.add mel_min (f.div (f.mul (f.sub mel_max mel_min) (int i)) (int (num_mel_bins + 1))))

  -- The bin of a frequency.
  unfoldable pub bin_of : F → ℕ
  bin_of hz = clamp_bin (
      f.to_int (f.floor (f.div (f.mul (f.add (int fft_size) (f.lit 1 0)) hz) (int sample_rate_hz))))

  -- One row of the filterbank from its three points.
  unfoldable pub mel_filter : ℕ → ℕ → ℕ → Option (List F)
  unfolding fill
  mel_filter left center0 right0 =
      let center = if leb center0 left then left + 1 else center0 in
      let right1 = if leb right0 center then center + 1 else right0 in
      let right = if leb n_bins right1 then n_bins - 1 else right1 in
      fill (λ k. f.div (int (k - left)) (int (center - left))) (min center n_bins - left) left
        (replicate n_bins (f.lit 0 0))
      >>= λ row.
          fill (λ k. f.div (int (right - k)) (int (right - center)))
            (min (right + 1) n_bins - center) center row

  -- The rows from the `m`-th on.
  unfoldable pub mel_filters : ℕ → ℕ → Option (List (List F))
  unfolding mel_filter bin_of point_hz
  mel_filters zero m = some []
  mel_filters (suc count) m =
      mel_filter (bin_of (point_hz (m - 1))) (bin_of (point_hz m)) (bin_of (point_hz (m + 1)))
      >>= λ row. mel_filters count (suc m) >>= λ rows. some (row ∷ rows)

  unfoldable pub build_mel_filterbank : Option (List (List F))
  unfolding mel_filters
  build_mel_filterbank = mel_filters num_mel_bins 1

  -- The constructor.
  unfoldable pub init : Option (FeatureExtractor F)
  unfolding build_mel_filterbank tabulate window_at
  init = build_mel_filterbank >>= λ rows.
      some (record { mel_filterbank = rows; window = tabulate window_at window_length_samples 0 })

  -- The loop of the pre-emphasis and the window; `first` in its first round.
  unfoldable pub windowed : Bool → F → List ℕ → List F → List F
  unfolding int16
  windowed first previous [] window = []
  windowed first previous (x ∷ xs) [] = []
  windowed first previous (x ∷ xs) (w ∷ ws) =
      let sample = f.div (f.of_int (int16 x)) (f.lit 32768 0) in
      let emphasized = if first then sample else f.sub sample (f.mul pre_emphasis previous) in
      f.mul emphasized w ∷ windowed false sample xs ws

  -- The sums of the transform at bin `k`, from index `n` on.
  unfoldable pub transform : ℕ → ℕ → F → F → List F → F × F
  transform k n real imag [] = (real, imag)
  transform k n real imag (w ∷ ws) =
      let angle = f.div (f.mul (f.mul (f.neg (f.lit 2 0)) pi) (int (k * n))) (int fft_size) in
      transform k (suc n) (f.add real (f.mul w (f.cos angle))) (f.add imag (f.mul w (f.sin angle)))
        ws

  unfoldable pub power_at : List F → ℕ → F
  unfolding transform
  power_at ws k =
      let (real, imag) = transform k 0 (f.lit 0 0) (f.lit 0 0) (take fft_size ws) in
      f.div (f.add (f.mul real real) (f.mul imag imag)) (int fft_size)

  unfoldable pub energy : F → List F → List F → F
  energy sum [] row = sum
  energy sum (p ∷ ps) [] = sum
  energy sum (p ∷ ps) (w ∷ ws) = energy (f.add sum (f.mul p w)) ps ws

  unfoldable pub log_mels : List F → List (List F) → List F
  unfolding energy
  log_mels power [] = []
  log_mels power (row ∷ rows) =
      let e = energy (f.lit 0 0) power row in
      let floored = if f.lt e (f.lit 1 10) then f.lit 1 10 else e in
      f.log floored ∷ log_mels power rows

  -- `ComputeFrame` on the samples of one frame.
  unfoldable pub compute_frame : FeatureExtractor F → List ℕ → List F
  unfolding windowed tabulate power_at log_mels
  compute_frame x samples =
      let ws = windowed true (f.lit 0 0) samples x.window in
      log_mels (tabulate (power_at ws) n_bins 0) x.mel_filterbank

  unfoldable pub dct_sum : ℕ → ℕ → F → List F → F
  dct_sum k n sum [] = sum
  dct_sum k n sum (x ∷ xs) =
      let angle = f.div (f.mul (f.mul pi (int k)) (f.add (int n) (f.lit 5 1))) (int num_mel_bins) in
      dct_sum k (suc n) (f.add sum (f.mul x (f.cos angle))) xs

  unfoldable pub compute_dct : List F → List F
  unfolding tabulate dct_sum
  compute_dct log_mel =
      let scale = f.sqrt (f.div (f.lit 2 0) (int num_mel_bins)) in
      tabulate (λ k. f.mul (dct_sum k 0 (f.lit 0 0) log_mel) scale) num_mfcc 0

  -- The loop of `Compute` from frame `t` on.
  unfoldable pub compute_frames : FeatureExtractor F → List ℕ → ℕ → ℕ → List F → Option (List F)
  unfolding compute_frame compute_dct
  compute_frames x pcm zero t out = some out
  compute_frames x pcm (suc count) t out =
      if leb (t * hop_length_samples + window_length_samples) (length pcm)
      then (let frame = take window_length_samples (drop (t * hop_length_samples) pcm) in
          memcpy out (t * num_mfcc) (compute_dct (compute_frame x frame)) 0 num_mfcc >>= λ next.
          compute_frames x pcm count (suc t) next)
      else none

  -- `Compute`; a pointer is `none` for `nullptr`, and `*out_features` comes back.
  unfoldable pub compute :
      FeatureExtractor F → Option (List ℕ) → ℕ → Option (List F) → Option (Bool × Option (List F))
  unfolding compute_frames
  compute x (some pcm) num_samples (some out) =
      if ltb num_samples required_samples
      then some (false, some out)
      else (compute_frames x pcm num_frames 0 out >>= λ next. some (true, some next))
  compute x pcm num_samples out = some (false, out)
