-- ===== src/Features/Frames.antt =====
-- `Compute`: where the coefficients of each frame end up, and what a frame depends on.
use vaani_edge.Base.{
  ℕ, zero, suc, ◌+◌, ◌-◌, ◌*◌, ◌≤◌, ◌≡◌, refl, ap, sym, ◌∙◌, fun_ext, Bool, true, false, some, List,
  [], ◌∷◌, ◌++◌, append_assoc, append-nil, arith, ltb, leb, length, take, drop, take-append_left,
  drop-append_left, drop-drop, memcpy, memcpy-some, splice, length-append, length-drop,
}
use vaani_edge.Float.{Float}
use vaani_edge.Config.{
  fft_size, num_mel_bins, num_mfcc, num_frames, window_length_samples, hop_length_samples,
}
use vaani_edge.Features.{
  FeatureExtractor, n_bins, required_samples, tabulate, int16, windowed, transform, power_at,
  log_mels, compute_frame, dct_sum, int, compute_dct, compute_frames, compute,
}
use vaani_edge.Features.Filterbank.{length-tabulate}

memcpy-append :
    {A : Type 0} (done rest src : List A) (i n : ℕ)
    → length done ≡ i
    → length src ≡ n
    → n ≤ length rest
    → memcpy (done ++ rest) i src 0 n ≡ some (done ++ (src ++ drop n rest))
unfolding splice
memcpy-append done rest src i n e f h =
    let whole : take n src ≡ src =
      ap (take n) (sym (append-nil src)) ∙ take-append_left src [] n f in
    let behind : drop (i + n) (done ++ rest) ≡ drop n rest =
      sym (drop-drop n i (done ++ rest)) ∙ ap (drop n) (drop-append_left done rest i e) in
    memcpy-some (done ++ rest) i src 0 n (omega (arith, length-append done rest)) (omega arith)
    ∙ rw (take-append_left done rest i e, whole, behind) refl

module _ {F : Type 0} ⦃f : Float F⦄ where
  power_at-take :
      (vs ws : List F) (k : ℕ) → take fft_size vs ≡ take fft_size ws → power_at vs k ≡ power_at ws k
  unfolding power_at
  power_at-take vs ws k e =
      ap
        (λ (us : List F).
          let (real, imag) = transform k 0 (f.lit 0 0) (f.lit 0 0) us in
          f.div (f.add (f.mul real real) (f.mul imag imag)) (int fft_size))
        e

module _ {F : Type 0} ⦃f : Float F⦄ (x : FeatureExtractor F) where
  -- The coefficients of the frame that begins at sample `t * 320`.
  unfoldable pub mfcc : List ℕ → ℕ → List F
  mfcc pcm t =
      compute_dct (compute_frame x (take window_length_samples (drop (t * hop_length_samples) pcm)))

  -- Those of `count` frames from frame `t` on, one after the other.
  unfoldable pub mfccs : List ℕ → ℕ → ℕ → List F
  unfolding mfcc
  mfccs pcm zero t = []
  mfccs pcm (suc count) t = mfcc pcm t ++ mfccs pcm count (suc t)

  length-mfcc : (pcm : List ℕ) (t : ℕ) → length (mfcc pcm t) ≡ num_mfcc
  unfolding mfcc compute_dct
  length-mfcc pcm t =
      length-tabulate
        (λ k.
          f.mul
            (dct_sum k 0 (f.lit 0 0)
              (compute_frame x (take window_length_samples (drop (t * hop_length_samples) pcm))))
            (f.sqrt (f.div (f.lit 2 0) (int num_mel_bins))))
        num_mfcc 0

  pub length-mfccs : (pcm : List ℕ) (count t : ℕ) → length (mfccs pcm count t) ≡ count * num_mfcc
  unfolding mfccs
  length-mfccs pcm zero t = refl
  length-mfccs pcm (suc count) t = omega (
    arith,
    length-append (mfcc pcm t) (mfccs pcm count (suc t)),
    length-mfcc pcm t,
    length-mfccs pcm count (suc t),
  )

  compute_frames-mfccs :
      (pcm : List ℕ) (count t n : ℕ) (done rest : List F)
      → n ≡ count * num_mfcc
      → length done ≡ t * num_mfcc
      → n ≤ length rest
      → (count + t) * hop_length_samples + 192 ≤ length pcm
      → compute_frames x pcm count t (done ++ rest)
        ≡ some (done ++ (mfccs pcm count t ++ drop n rest))
  unfolding compute_frames mfccs
  compute_frames-mfccs pcm zero t n done rest m e h p =
      let none_left : n ≡ 0 = omega arith in rw none_left refl
  compute_frames-mfccs pcm (suc count) t n done rest m e h p =
      let inside : leb (t * hop_length_samples + window_length_samples) (length pcm) ≡ true =
        ground arith in
      let copied =
        memcpy-append done rest (mfcc pcm t) (t * num_mfcc) num_mfcc e (length-mfcc pcm t)
          (omega arith) in
      let ih =
        compute_frames-mfccs pcm count (suc t) (n - num_mfcc) (done ++ mfcc pcm t)
          (drop num_mfcc rest) (omega arith)
          (omega (arith, e, length-append done (mfcc pcm t), length-mfcc pcm t))
          (omega (arith, length-drop num_mfcc rest)) (omega arith) in
      let behind : drop (n - num_mfcc) (drop num_mfcc rest) ≡ drop n rest =
        drop-drop (n - num_mfcc) num_mfcc rest ∙ ap (λ (k : ℕ). drop k rest) (omega arith) in
      let here : compute_frames x pcm (suc count) t (done ++ rest)
          ≡ compute_frames x pcm count (suc t) (done ++ (mfcc pcm t ++ drop num_mfcc rest)) =
        unfold mfcc in rw (inside, copied) refl in
      here
      ∙ ap (compute_frames x pcm count (suc t))
          (sym (append_assoc done (mfcc pcm t) (drop num_mfcc rest)))
      ∙ ih
      ∙ ap some (
          append_assoc done (mfcc pcm t) _
          ∙ ap (λ (r : List F). done ++ r)
              (sym (append_assoc (mfcc pcm t) (mfccs pcm count (suc t)) _)
                ∙ ap (λ (r : List F). (mfcc pcm t ++ mfccs pcm count (suc t)) ++ r) behind))

  -- `Compute` on enough samples, into an array of at least 650 floats, stays inside its arrays,
  -- returns true, and leaves the thirteen coefficients of each of the fifty frames in the front of
  -- the array, frame after frame, and what lies behind them as it was.
  pub compute-mfccs :
      (pcm : List ℕ) (num_samples : ℕ) (out : List F)
      → required_samples ≤ num_samples
      → num_samples ≤ length pcm
      → num_frames * num_mfcc ≤ length out
      → compute x (some pcm) num_samples (some out)
        ≡ some (true, some (mfccs pcm num_frames 0 ++ drop (num_frames * num_mfcc) out))
  unfolding compute
  compute-mfccs pcm num_samples out enough inside room =
      let long : ltb num_samples required_samples ≡ false = ground arith in
      let loop =
        compute_frames-mfccs pcm num_frames 0 (num_frames * num_mfcc) [] out refl refl room
          (omega arith) in
      rw (long, loop) refl

  -- The windowed samples up to some point depend only on the samples up to there.
  take-windowed :
      (first : Bool) (previous : F) (ps xs ys : List ℕ) (ws : List F)
      → take (length ps) (windowed first previous (ps ++ xs) ws)
        ≡ take (length ps) (windowed first previous (ps ++ ys) ws)
  unfolding windowed
  take-windowed first previous [] xs ys ws = refl
  take-windowed first previous (p ∷ ps) xs ys [] = refl
  take-windowed first previous (p ∷ ps) xs ys (w ∷ ws) =
      rw (take-windowed false (f.div (f.of_int (int16 p)) (f.lit 32768 0)) ps xs ys ws) refl

  -- The coefficients of a frame depend on its first 256 samples only; those behind, half of the
  -- frame, have no influence.
  pub compute_frame-take :
      (ps xs ys : List ℕ)
      → length ps ≡ fft_size
      → compute_frame x (ps ++ xs) ≡ compute_frame x (ps ++ ys)
  unfolding compute_frame
  compute_frame-take ps xs ys e =
      let same = take-windowed true (f.lit 0 0) ps xs ys x.window in
      let same256 : take fft_size (windowed true (f.lit 0 0) (ps ++ xs) x.window)
          ≡ take fft_size (windowed true (f.lit 0 0) (ps ++ ys) x.window) =
        rw e at same in
      ap (λ (power : ℕ → F). log_mels (tabulate power n_bins 0) x.mel_filterbank)
        (fun_ext λ k.
          power_at-take (windowed true (f.lit 0 0) (ps ++ xs) x.window)
            (windowed true (f.lit 0 0) (ps ++ ys) x.window) k same256)
