-- ===== src/App/Capture.antt =====
-- main/app_main.cpp, `AudioCaptureTask`, over the interface of audio_capture.h. What a round takes
-- from outside, the answer of the ring buffer's mutex and the two readings of the timer, are
-- arguments; log lines are left out.
use vaani_edge.Base.{
  is_zero, ℕ, ◌==◌, Bool, false, Option, some, List, [], ◌∷◌, if◌then◌else◌, ◌>>=◌, u32, sub32, ℤ,
  pos, negsuc,
}
use vaani_edge.Config.{frame_size_samples}
use vaani_edge.Ring
use vaani_edge.Ring.{RingBuffer}
use vaani_edge.Audio.Contract.{AudioCapture}
use vaani_edge.Metrics.{RuntimeMetrics, record_loop_period}

-- The task's frame and the objects that it uses.
pub record Recorder (a : AudioCapture) : Type 0 where
  pub source : a.State
  pub frame : Option (List ℕ)
  pub ring : RingBuffer ℕ
  pub metrics : RuntimeMetrics

abbrev pub is_whole : ℤ → Bool
is_whole (pos n) = n == frame_size_samples
is_whole (negsuc n) = false

-- What a round takes from outside.
pub record Tick : Type 0 where
  pub granted : Bool
  pub t0 : ℕ
  pub t1 : ℕ

-- What is left of the task after some rounds.
pub data Capturing (a : AudioCapture) : Type 0 where
  deleted : Recorder a → Capturing a
  recording : Recorder a → Capturing a

module _ {a : AudioCapture} where
  unfoldable pub capture_round : Tick → Recorder a → Option (Recorder a)
  capture_round tick s =
      a.audio_read s.frame frame_size_samples s.source >>= λ (source, frame, count).
      (if is_whole count
        then (Ring.push tick.granted frame frame_size_samples s.ring >>= λ (ring, pushed).
            some ring)
        else some s.ring)
      >>= λ ring. some (record {
        source = source;
        frame = frame;
        ring = ring;
        metrics = record_loop_period (sub32 (u32 tick.t1) (u32 tick.t0)) s.metrics;
      })

  -- The rounds of its loop, as many as there are ticks.
  unfoldable pub capture_rounds : List Tick → Recorder a → Option (Recorder a)
  unfolding capture_round
  capture_rounds [] s = some s
  capture_rounds (tick ∷ ticks) s = capture_round tick s >>= λ t. capture_rounds ticks t

  -- From its start on. `s.frame` is the uninitialised array on its stack.
  unfoldable pub capture_task : List Tick → Recorder a → Option (Capturing a)
  unfolding capture_rounds
  capture_task ticks s =
      let (source, status) = a.audio_capture_init s.source in
      if is_zero status
      then (capture_rounds ticks (record s { source = source }) >>= λ t. some (recording t))
      else some (deleted (record s { source = source }))
