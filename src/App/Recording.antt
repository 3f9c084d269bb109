-- ===== src/App/Recording.antt =====
-- main/app_main.cpp, `AudioCaptureTask`: what a round of its loop records.
use vaani_edge.Base.{
  ℕ, ◌≡◌, refl, true, some, List, ◌++◌, arith, length, length-append, drop, take-append_left, subst,
  u32, sub32, ℕ,
}
use vaani_edge.Float.{Float}
use vaani_edge.Config.{frame_size_samples}
use vaani_edge.Ring.Valid.{IsValid}
use vaani_edge.Ring.Push.{IsPushed, push-keep_last}
use vaani_edge.Metrics.{record_loop_period}
use vaani_edge.Audio.Samples.{index_after, tone, length-tone, is_playing, audio_read-tone}
use vaani_edge.Audio.Contract.{mock}
use vaani_edge.App.Capture.{Recorder, Tick, capture_round}

-- A round of the capture task with an initialised source, a frame of 480 samples, a valid ring
-- buffer and the mutex granted stays inside its arrays, and pushes the next 480 samples of the
-- source: the ring buffer is valid, and holds what it held and then these samples, of all the
-- newest that fit.
pub capture_round-IsPushed :
    (F : Type 0) ⦃f : Float F⦄ (tick : Tick) (s : Recorder (mock F)) (frame : List ℕ)
    → tick.granted ≡ true
    → s.frame ≡ some frame
    → s.source.initialized ≡ true
    → length frame ≡ frame_size_samples
    → IsValid s.ring
    → (t : Recorder (mock F)) × (capture_round tick s ≡ some t)
      × IsPushed s.ring
          (tone F (is_playing F s.source) frame_size_samples s.source.sample_index)
          t.ring
unfolding capture_round
capture_round-IsPushed F tick s frame asked e on size v =
    let new : List ℕ = tone F (is_playing F s.source) frame_size_samples s.source.sample_index in
    let long : length new ≡ frame_size_samples =
      length-tone F (is_playing F s.source) frame_size_samples s.source.sample_index in
    let buffer : List ℕ = new ++ drop frame_size_samples frame in
    let read = audio_read-tone F s.source frame frame_size_samples on (omega (arith, size)) in
    let (ring, stored, pushed) =
      push-keep_last s.ring buffer frame_size_samples v (omega arith) (omega arith)
        (omega (arith, long, length-append new (drop frame_size_samples frame))) in
    (
      record {
        source = record s.source {
          sample_index =
              index_after F (is_playing F s.source) frame_size_samples s.source.sample_index;
        };
        frame = some buffer;
        ring = ring;
        metrics = record_loop_period (sub32 (u32 tick.t1) (u32 tick.t0)) s.metrics;
      },
      rw (asked, e, read, stored) refl,
      subst (λ (l : List ℕ). IsPushed s.ring l ring)
          (take-append_left new (drop frame_size_samples frame) frame_size_samples long) pushed,
    )
