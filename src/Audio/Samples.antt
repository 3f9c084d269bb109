-- ===== src/Audio/Samples.antt =====
-- `audio_read` of the mock source: what it writes.
use vaani_edge.Base.{
  put, ℕ, zero, suc, ◌+◌, ◌/◌, ◌%◌, ◌≤◌, ◌≡◌, refl, ap, sym, ◌∙◌, Bool, true, some, List, [], ◌∷◌,
  ◌++◌, append_assoc, arith, ◌==◌, u32, length, length-append, drop, pos,
}
use vaani_edge.Float.{Float}
use vaani_edge.Config.{sample_rate_hz}
use vaani_edge.Audio.{AudioSource, tone_sample, read_loop, audio_read}

put-append :
    {A : Type 0} (done rest : List A) (x y : A) (i : ℕ)
    → length done ≡ i
    → put (done ++ (x ∷ rest)) i y ≡ some (done ++ (y ∷ rest))
unfolding put
put-append [] rest x y zero e = refl
put-append [] rest x y (suc i) e = absurd (omega arith)
put-append (z ∷ done) rest x y zero e = absurd (omega arith)
put-append (z ∷ done) rest x y (suc i) e = rw (put-append done rest x y i (omega arith)) refl

module _ (F : Type 0) ⦃f : Float F⦄ (tone_active : Bool) where
  -- The sample index after `count` samples; it wraps as a uint32_t does.
  unfoldable pub index_after : ℕ → ℕ → ℕ
  index_after zero index = index
  index_after (suc count) index = index_after count (u32 (index + 1))

  -- `count` samples of the tone, or of silence.
  unfoldable pub tone : ℕ → ℕ → List ℕ
  tone zero index = []
  tone (suc count) index = tone_sample F tone_active index ∷ tone count (u32 (index + 1))

  pub length-tone : (count index : ℕ) → length (tone count index) ≡ count
  unfolding tone
  length-tone zero index = refl
  length-tone (suc count) index = omega (arith, length-tone count (u32 (index + 1)))

  read_loop-tone :
      (count i index : ℕ) (done rest : List ℕ)
      → length done ≡ i
      → count ≤ length rest
      → read_loop F count i tone_active index (done ++ rest)
        ≡ some (index_after count index, done ++ (tone count index ++ drop count rest))
  unfolding read_loop tone index_after
  read_loop-tone zero i index done rest e h = refl
  read_loop-tone (suc count) i index done [] e h = absurd (omega arith)
  read_loop-tone (suc count) i index done (x ∷ rest) e h =
      let v : ℕ = tone_sample F tone_active index in
      let ih =
        read_loop-tone count (suc i) (u32 (index + 1)) (done ++ (v ∷ [])) rest
          (omega (arith, e, length-append done (v ∷ []))) (omega arith) in
      rw (put-append done rest x v i e) (
        ap (read_loop F count (suc i) tone_active (u32 (index + 1)))
          (sym (append_assoc done (v ∷ []) rest))
        ∙ ih
        ∙ ap (λ (l : List ℕ). some (index_after count (u32 (index + 1)), l))
            (append_assoc done (v ∷ []) (tone count (u32 (index + 1)) ++ drop count rest)))

module _ (F : Type 0) ⦃f : Float F⦄ where
  -- Whether the source plays its tone: in the first of every five seconds.
  abbrev pub is_playing : AudioSource → Bool
  is_playing a = a.sample_index / sample_rate_hz % 5 == 0

  pub audio_read-tone :
      (a : AudioSource) (buffer : List ℕ) (samples : ℕ)
      → a.initialized ≡ true
      → samples ≤ length buffer
      → audio_read F (some buffer) samples a
        ≡ some (
          record a { sample_index = index_after F (is_playing a) samples a.sample_index },
          some (tone F (is_playing a) samples a.sample_index ++ drop samples buffer),
          pos samples,
        )
  unfolding audio_read
  audio_read-tone a buffer samples on room =
      rw (on, read_loop-tone F (is_playing a) samples 0 a.sample_index [] buffer refl room) refl
