-- ===== src/Metrics/Tests.antt =====
-- Metrics of which one was recorded twice, and most never.
use vaani_edge.Base.{ℕ, ◌≡◌, [], ◌∷◌}
use vaani_edge.Float.{hundredths}
use vaani_edge.Metrics.{init, estimate_idle_cpu_percent, log_snapshot}
use vaani_edge.Metrics.Recorded.{calls, loop_period, kws_inference, log_snapshot-last}

log_snapshot-last_example :
    log_snapshot {F = ℕ} 90000 80000
      (calls (loop_period 31000 ∷ kws_inference 12 ∷ loop_period 30000 ∷ []) init)
    ≡ (90000 ∷ 80000 ∷ 0 ∷ 0 ∷ 0 ∷ 0 ∷ 0 ∷ 0 ∷ 12 ∷ 0 ∷ 30000 ∷ [], estimate_idle_cpu_percent)
log_snapshot-last_example =
    log_snapshot-last 90000 80000 (loop_period 31000 ∷ kws_inference 12 ∷ loop_period 30000 ∷ [])
