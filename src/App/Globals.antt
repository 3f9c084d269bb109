-- ===== src/App/Globals.antt =====
-- main/app_main.cpp: the objects that the tasks share, as they are before any task runs. Static
-- storage is filled with zeros.
use vaani_edge.Base.{ℕ, ◌*◌, ◌/◌, List, [], replicate, pos}
use vaani_edge.Float.{Float}
use vaani_edge.Config.{
  sample_rate_hz, ring_buffer_samples, num_frames, num_mel_bins, hop_length_samples,
  detection_threshold, consecutive_windows, cooldown_ms,
}
use vaani_edge.Ring
use vaani_edge.Ring.{RingBuffer}
use vaani_edge.Trigger
use vaani_edge.Trigger.{TriggerStateMachine}
use vaani_edge.Kws.{KwsResult}
use vaani_edge.Metrics
use vaani_edge.App.Keyword.{Rtos, Listener}

unfoldable pub g_ring_buffer : RingBuffer ℕ
g_ring_buffer = Ring.init (replicate ring_buffer_samples 0) ring_buffer_samples

-- The cooldown in hops.
abbrev pub cooldown_hops : ℕ
cooldown_hops = cooldown_ms / (hop_length_samples * 1000 / sample_rate_hz)

module _ {F : Type 0} ⦃f : Float F⦄ where
  unfoldable pub g_feature_buffer : List F
  g_feature_buffer = replicate (num_frames * num_mel_bins) (f.lit 0 0)

  unfoldable pub g_trigger_sm : TriggerStateMachine F
  g_trigger_sm = Trigger.init detection_threshold (pos consecutive_windows) (pos cooldown_hops)

  -- The keyword task before its first round. The arrays on its stack are not initialised.
  unfoldable pub boot : (os : Rtos) → os.World → List ℕ → KwsResult F → Listener F os
  unfolding g_ring_buffer g_feature_buffer g_trigger_sm
  boot os w window result = record {
    world = w;
    ring = g_ring_buffer;
    window_buffer = window;
    features = g_feature_buffer;
    result = result;
    trigger = g_trigger_sm;
    metrics = Metrics.init;
    requests = [];
  }
