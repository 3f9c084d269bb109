-- ===== src/Audio/Contract.antt =====
-- components/audio_capture, audio_capture.h: the interface that the real microphone's driver is to
-- have, and the contract that its comments state; the mock source has it.
use vaani_edge.Base.{
  ℕ, ◌≤◌, ◌≡◌, refl, true, Option, some, List, ◌++◌, arith, length, length-append, length-drop,
  drop, ℤ, pos,
}
use vaani_edge.Float.{Float}
use vaani_edge.Audio.{AudioSource, audio_capture_init, audio_read, audio_capture_deinit}
use vaani_edge.Audio.Samples.{tone, length-tone, is_playing, audio_read-tone}

-- The three functions, over the backend's own state. `none` stands for a null pointer, and for an
-- access outside the array in the answer.
pub record AudioCapture : Type 1 where
  pub State : Type 0
  pub audio_capture_init : State → State × ℤ
  pub audio_read : Option (List ℕ) → ℕ → State → Option (State × Option (List ℕ) × ℤ)
  pub audio_capture_deinit : State → State

-- After an initialisation that returns 0, a read of no more samples than the array holds stays
-- inside the array, and returns the number of samples written or a negative number.
pub record IsCapture (a : AudioCapture) (Ready : a.State → Type 0) : Type 0 where
  pub init_ready :
      (s : a.State) → (a.audio_capture_init s).1 ≡ pos 0 → Ready (a.audio_capture_init s).0
  pub read_inside :
      (s : a.State) (buffer : List ℕ) (samples : ℕ)
      → Ready s
      → samples ≤ length buffer
      → (s' : a.State) × (buffer' : List ℕ) × (n : ℤ) × (a.audio_read (some buffer) samples s
          ≡ some (s', some buffer', n))
        × Ready s'
        × (length buffer' ≡ length buffer)
        × ((k : ℕ) → n ≡ pos k → k ≤ samples)

module _ (F : Type 0) ⦃f : Float F⦄ where
  abbrev pub mock : AudioCapture
  mock = record {
    State = AudioSource;
    audio_capture_init = audio_capture_init;
    audio_read = audio_read F;
    audio_capture_deinit = audio_capture_deinit;
  }

  -- The mock source keeps the contract of the header.
  pub mock-IsCapture : IsCapture mock (λ s. s.initialized ≡ true)
  unfolding audio_capture_init
  mock-IsCapture = record {
    init_ready = λ s e. refl;
    read_inside = λ s buffer samples on room.
        let new : List ℕ = tone F (is_playing F s) samples s.sample_index in
        (
          _,
          new ++ drop samples buffer,
          pos samples,
          audio_read-tone F s buffer samples on room,
          on,
          omega (
            arith,
            length-append new (drop samples buffer),
            length-drop samples buffer,
            length-tone F (is_playing F s) samples s.sample_index,
          ),
          λ k e. ground arith,
        );
  }
