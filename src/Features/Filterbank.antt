-- ===== src/Features/Filterbank.antt =====
-- The constructor of the feature extractor: no index lies outside the arrays, and their shapes.
use vaani_edge.Base.{
  put_total, ℕ, zero, suc, ◌+◌, ◌-◌, ◌≤◌, ◌<◌, ◌≡◌, refl, ◌∙◌, some, List, [], ◌∷◌, arith, leb,
  if◌then◌else◌, min, length, length-replicate, replicate, ℤ, pos, negsuc,
}
use vaani_edge.Float.{Float}
use vaani_edge.Config.{fft_size, sample_rate_hz, num_mel_bins, window_length_samples}
use vaani_edge.Features.{
  FeatureExtractor, n_bins, clamp_bin, int, tabulate, fill, bin_of, point_hz, mel_filter,
  mel_filters, build_mel_filterbank, init, window_at,
}

fill_total :
    {A : Type 0} (value : ℕ → A) (count k : ℕ) (row : List A)
    → k + count ≤ length row
    → (r : List A) × (fill value count k row ≡ some r) × (length r ≡ length row)
unfolding fill
fill_total value zero k row h = (row, refl, refl)
fill_total value (suc count) k row h =
    let (next, e, l, g) = put_total row k (value k) (omega arith) in
    let (r, e', l') = fill_total value count (suc k) next (omega (arith, l)) in
    (r, rw (e, e') refl, l' ∙ l)

pub length-tabulate :
    {A : Type 0} (value : ℕ → A) (count k : ℕ) → length (tabulate value count k) ≡ count
unfolding tabulate
length-tabulate value zero k = refl
length-tabulate value (suc count) k = omega (arith, length-tabulate value count (suc k))

clamp_bin_lt : (z : ℤ) → clamp_bin z < n_bins
clamp_bin_lt (negsuc k) = omega arith
clamp_bin_lt (pos k) = ground arith

-- Every row has as many values as there are bins.
pub data AllSized {F : Type 0} : List (List F) → Type 0 where
  none_left : AllSized []
  row_sized :
      (row : List F) (rows : List (List F))
      → length row ≡ n_bins
      → AllSized rows
      → AllSized (row ∷ rows)

-- The shape of the two tables.
pub record IsShaped {F : Type 0} (x : FeatureExtractor F) : Type 0 where
  pub filter_count : length x.mel_filterbank ≡ num_mel_bins
  pub filter_sizes : AllSized x.mel_filterbank
  pub window_size : length x.window ≡ window_length_samples

module _ {F : Type 0} ⦃f : Float F⦄ where
  mel_filter_total :
      (left center right : ℕ)
      → left < n_bins
      → center < n_bins
      → (row : List F) × (mel_filter left center right ≡ some row) × (length row ≡ n_bins)
  unfolding mel_filter
  mel_filter_total left center0 right0 hl hc =
      let center : ℕ = if leb center0 left then left + 1 else center0 in
      let right1 : ℕ = if leb right0 center then center + 1 else right0 in
      let right : ℕ = if leb n_bins right1 then n_bins - 1 else right1 in
      let zeros : List F = replicate n_bins (f.lit 0 0) in
      let size : length zeros ≡ n_bins = length-replicate n_bins (f.lit 0 0) in
      let (a, e, l) =
        fill_total (λ k. f.div (int (k - left)) (int (center - left))) (min center n_bins - left)
          left zeros (ground (arith, size)) in
      let (b, e', l') =
        fill_total (λ k. f.div (int (right - k)) (int (right - center)))
          (min (right + 1) n_bins - center) center a (ground (arith, size, l)) in
      (b, rw (e, e') refl, l' ∙ (l ∙ size))

  bin_of_lt : (hz : F) → bin_of hz < n_bins
  unfolding bin_of
  bin_of_lt hz = clamp_bin_lt (
      f.to_int (f.floor (f.div (f.mul (f.add (int fft_size) (f.lit 1 0)) hz) (int sample_rate_hz))))

  mel_filters_total :
      (count m : ℕ)
      → (rows : List (List F)) × (mel_filters count m ≡ some rows)
        × (length rows ≡ count)
        × AllSized rows
  unfolding mel_filters
  mel_filters_total zero m = ([], refl, refl, none_left)
  mel_filters_total (suc count) m =
      let (row, e, l) =
        mel_filter_total (bin_of {F = F} (point_hz (m - 1))) (bin_of {F = F} (point_hz m))
          (bin_of {F = F} (point_hz (m + 1))) (bin_of_lt (point_hz (m - 1)))
          (bin_of_lt (point_hz m)) in
      let (rows, e', l', all) = mel_filters_total count (suc m) in
      (row ∷ rows, rw (e, e') refl, omega (arith, l'), row_sized row rows l all)

  -- Whatever the float operations compute, the constructor stays inside its arrays and makes forty
  -- filters of 129 values each and a window of 512 values.
  pub init-IsShaped : (x : FeatureExtractor F) × (init ≡ some x) × IsShaped x
  unfolding init build_mel_filterbank
  init-IsShaped =
      let (rows, e, l, all) = mel_filters_total num_mel_bins 1 in
      (
        record { mel_filterbank = rows; window = tabulate window_at window_length_samples 0 },
        rw e refl,
        record {
          filter_count = l;
          filter_sizes = all;
          window_size = length-tabulate {A = F} window_at window_length_samples 0;
        },
      )
