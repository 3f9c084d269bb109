-- ===== src/Audio.antt =====
-- components/audio_capture: the mock audio source of src/mock_audio_source.cpp, with its two
-- globals as a record, over the interface `Float`.
pub mod Samples
pub mod Contract
use vaani_edge.Base.{
  put, ℕ, zero, suc, ◌+◌, ◌-◌, ◌/◌, ◌%◌, Bool, true, false, not, Option, none, some, List, [], ◌∷◌,
  if◌then◌else◌, ◌>>=◌, ◌==◌, u32, ℤ, pos, negsuc,
}
use vaani_edge.Float.{Float}
use vaani_edge.Config.{sample_rate_hz}

pub record AudioSource : Type 0 where
  pub sample_index : ℕ
  pub initialized : Bool

-- The globals before any call.
abbrev pub g_audio_source : AudioSource
g_audio_source = record { sample_index = 0; initialized = false }

unfoldable pub audio_capture_init : AudioSource → AudioSource × ℤ
audio_capture_init a = (record { sample_index = 0; initialized = true }, pos 0)

unfoldable pub audio_capture_deinit : AudioSource → AudioSource
audio_capture_deinit a = record a { initialized = false }

-- The 16 bits of an int16_t.
abbrev pub bits16 : ℤ → ℕ
bits16 (pos n) = n % 65536
bits16 (negsuc n) = 65535 - n % 65536

-- The sample at an index.
unfoldable pub tone_sample : (F : Type 0) ⦃f : Float F⦄ → Bool → ℕ → ℕ
tone_sample F ⦃f⦄ tone_active index =
    let t = f.div (f.of_int (pos index)) (f.of_int (pos sample_rate_hz)) in
    let phase =
      f.mul (f.mul (f.mul (f.lit 2 0) (f.lit 314159265358979323846 20)) (f.lit 440 0)) t in
    bits16 (f.to_int (if tone_active then f.mul (f.lit 500 0) (f.sin phase) else f.lit 0 0))

-- The loop of `audio_read`, `count` rounds from index `i` on: the sample index and the buffer.
unfoldable pub read_loop :
    (F : Type 0) ⦃f : Float F⦄ → ℕ → ℕ → Bool → ℕ → List ℕ → Option (ℕ × List ℕ)
read_loop F zero i tone_active index buffer = some (index, buffer)
read_loop F (suc count) i tone_active index buffer =
    put buffer i (tone_sample F tone_active index) >>= λ next.
    read_loop F count (suc i) tone_active (u32 (index + 1)) next

-- `audio_read`: the globals, the buffer and the return value.
unfoldable pub audio_read :
    (F : Type 0) ⦃f : Float F⦄
    → Option (List ℕ)
    → ℕ
    → AudioSource
    → Option (AudioSource × Option (List ℕ) × ℤ)
audio_read F none samples a = some (a, none, negsuc 0)
audio_read F (some buffer) samples a =
    if not a.initialized
    then some (a, some buffer, negsuc 0)
    else (read_loop F samples 0 (a.sample_index / sample_rate_hz % 5 == 0) a.sample_index buffer
        >>= λ (index, filled). some (record a { sample_index = index }, some filled, pos samples))
