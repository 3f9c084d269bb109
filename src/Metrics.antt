-- ===== src/Metrics.antt =====
-- components/runtime_metrics: `class RuntimeMetrics`, the one object of which `Instance` returns.
-- The heap sizes that ESP-IDF reports are arguments; of the log line of `LogSnapshot`, the values.
pub mod Recorded
mod Tests
use vaani_edge.Base.{ℕ, List, [], ◌∷◌, u32}
use vaani_edge.Float.{Float}

pub record RuntimeMetrics : Type 0 where
  pub tensor_arena_bytes : ℕ
  pub tensor_arena_used_bytes : ℕ
  pub model_size_bytes : ℕ
  pub ring_buffer_bytes : ℕ
  pub feature_buffer_bytes : ℕ
  pub network_buffer_bytes : ℕ
  pub last_kws_inference_duration_us : ℕ
  pub last_feature_extraction_duration_us : ℕ
  pub last_loop_period_us : ℕ

pub record RuntimeMetricsSnapshot (F : Type 0) : Type 0 where
  pub free_heap_bytes : ℕ
  pub min_free_heap_bytes : ℕ
  pub metrics : RuntimeMetrics
  pub estimated_idle_cpu_percent : F

unfoldable pub init : RuntimeMetrics
init = record {
  tensor_arena_bytes = 0;
  tensor_arena_used_bytes = 0;
  model_size_bytes = 0;
  ring_buffer_bytes = 0;
  feature_buffer_bytes = 0;
  network_buffer_bytes = 0;
  last_kws_inference_duration_us = 0;
  last_feature_extraction_duration_us = 0;
  last_loop_period_us = 0;
}

unfoldable pub set_static_sizes : ℕ → ℕ → ℕ → ℕ → ℕ → RuntimeMetrics → RuntimeMetrics
set_static_sizes arena model ring feature network m = record m {
  tensor_arena_bytes = arena;
  model_size_bytes = model;
  ring_buffer_bytes = ring;
  feature_buffer_bytes = feature;
  network_buffer_bytes = network;
}

unfoldable pub record_tensor_arena_used : ℕ → RuntimeMetrics → RuntimeMetrics
record_tensor_arena_used bytes_used m = record m { tensor_arena_used_bytes = bytes_used }

unfoldable pub record_kws_inference_duration : ℕ → RuntimeMetrics → RuntimeMetrics
record_kws_inference_duration duration_us m = record m {
  last_kws_inference_duration_us = duration_us;
}

unfoldable pub record_feature_extraction_duration : ℕ → RuntimeMetrics → RuntimeMetrics
record_feature_extraction_duration duration_us m = record m {
  last_feature_extraction_duration_us = duration_us;
}

unfoldable pub record_loop_period : ℕ → RuntimeMetrics → RuntimeMetrics
record_loop_period duration_us m = record m { last_loop_period_us = duration_us }

module _ {F : Type 0} ⦃f : Float F⦄ where
  -- Both branches of `EstimateIdleCpuPercent` return -1.
  unfoldable pub estimate_idle_cpu_percent : F
  estimate_idle_cpu_percent = f.neg (f.lit 1 0)

  unfoldable pub snapshot : ℕ → ℕ → RuntimeMetrics → RuntimeMetricsSnapshot F
  unfolding estimate_idle_cpu_percent
  snapshot free_heap min_free_heap m = record {
    free_heap_bytes = u32 free_heap;
    min_free_heap_bytes = u32 min_free_heap;
    metrics = m;
    estimated_idle_cpu_percent = estimate_idle_cpu_percent;
  }

  -- The values of the log line, in its order.
  unfoldable pub log_snapshot : ℕ → ℕ → RuntimeMetrics → List ℕ × F
  unfolding snapshot
  log_snapshot free_heap min_free_heap m =
      let s = snapshot free_heap min_free_heap m in
      (
        s.free_heap_bytes ∷ s.min_free_heap_bytes ∷ s.metrics.tensor_arena_used_bytes
            ∷ s.metrics.tensor_arena_bytes ∷ s.metrics.model_size_bytes
            ∷ s.metrics.ring_buffer_bytes ∷ s.metrics.feature_buffer_bytes
            ∷ s.metrics.network_buffer_bytes ∷ s.metrics.last_kws_inference_duration_us
            ∷ s.metrics.last_feature_extraction_duration_us ∷ s.metrics.last_loop_period_us ∷ [],
        s.estimated_idle_cpu_percent,
      )
