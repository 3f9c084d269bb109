-- ===== src/App/MetricsTask.antt =====
-- main/app_main.cpp, `MetricsTask`: one round of its loop.
use vaani_edge.Base.{ℕ, List}
use vaani_edge.Float.{Float}
use vaani_edge.Metrics.{RuntimeMetrics, log_snapshot}

-- The values that it logs, and how many milliseconds it waits.
abbrev pub metrics_round : {F : Type 0} ⦃f : Float F⦄ → ℕ → ℕ → RuntimeMetrics → (List ℕ × F) × ℕ
metrics_round free_heap min_free_heap m = (log_snapshot free_heap min_free_heap m, 5000)
