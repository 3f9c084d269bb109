-- ===== src/App/CaptureTests.antt =====
-- The capture task with the mock source: one round that gets the mutex, and one that does not.
use vaani_edge.Base.{ℕ, ◌≡◌, refl, true, false, some, List, [], ◌∷◌, replicate, length-replicate}
use vaani_edge.Float.{hundredths}
use vaani_edge.Config.{frame_size_samples}
use vaani_edge.Audio.Contract.{mock, mock-IsCapture}
use vaani_edge.App.Capture.{Tick, Capturing, capture_task}
use vaani_edge.App.Heard.{Captured, capture_task-Captured}
use vaani_edge.App.KeywordTests.{recorder, granted_tick, full-IsValid}

abbrev ticks : List Tick
ticks = granted_tick ∷ record granted_tick { granted = false } ∷ []

capture_task-Captured_example :
    (c : Capturing (mock ℕ)) × (capture_task ticks recorder ≡ some c)
    × Captured (mock ℕ) (λ s. s.initialized ≡ true) (mock-IsCapture ℕ) ticks recorder c
capture_task-Captured_example =
    capture_task-Captured (mock ℕ) (λ s. s.initialized ≡ true) (mock-IsCapture ℕ) ticks recorder
      (replicate frame_size_samples 0) refl (length-replicate {A = ℕ} frame_size_samples 0)
      full-IsValid
