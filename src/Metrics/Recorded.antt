-- ===== src/Metrics/Recorded.antt =====
-- components/runtime_metrics: what the log line reports after any calls of the other methods.
use vaani_edge.Base.{ℕ, ◌≡◌, refl, ap, ◌∙◌, arith, Option, none, some, List, [], ◌∷◌, u32}
use vaani_edge.Float.{Float}
use vaani_edge.Metrics.{
  RuntimeMetrics, init, set_static_sizes, record_tensor_arena_used, record_kws_inference_duration,
  record_feature_extraction_duration, record_loop_period, estimate_idle_cpu_percent, snapshot,
  log_snapshot,
}

-- The calls, in the order of the class.
pub data Call : Type 0 where
  static_sizes : ℕ → ℕ → ℕ → ℕ → ℕ → Call
  tensor_arena_used kws_inference feature_extraction loop_period : ℕ → Call

unfoldable pub call : Call → RuntimeMetrics → RuntimeMetrics
unfolding set_static_sizes record_tensor_arena_used record_kws_inference_duration
    record_feature_extraction_duration record_loop_period
call (static_sizes arena model ring feature network) m =
    set_static_sizes arena model ring feature network m
call (tensor_arena_used n) m = record_tensor_arena_used n m
call (kws_inference n) m = record_kws_inference_duration n m
call (feature_extraction n) m = record_feature_extraction_duration n m
call (loop_period n) m = record_loop_period n m

abbrev pub calls : List Call → RuntimeMetrics → RuntimeMetrics
calls [] m = m
calls (c ∷ cs) m = calls cs (call c m)

-- The fields of the object, in the order of the log line.
pub data Field : Type 0 where
  used arena model ring feature network kws extraction loop : Field

-- What a call gives to a field, if anything.
abbrev pub given : Field → Call → Option ℕ
given used (tensor_arena_used n) = some n
given arena (static_sizes a m r f n) = some a
given model (static_sizes a m r f n) = some m
given ring (static_sizes a m r f n) = some r
given feature (static_sizes a m r f n) = some f
given network (static_sizes a m r f n) = some n
given kws (kws_inference n) = some n
given extraction (feature_extraction n) = some n
given loop (loop_period n) = some n
given _ _ = none

abbrev field : Field → RuntimeMetrics → ℕ
field used m = m.tensor_arena_used_bytes
field arena m = m.tensor_arena_bytes
field model m = m.model_size_bytes
field ring m = m.ring_buffer_bytes
field feature m = m.feature_buffer_bytes
field network m = m.network_buffer_bytes
field kws m = m.last_kws_inference_duration_us
field extraction m = m.last_feature_extraction_duration_us
field loop m = m.last_loop_period_us

abbrev or_else : Option ℕ → ℕ → ℕ
or_else none d = d
or_else (some n) d = n

abbrev last_from : Field → ℕ → List Call → ℕ
last_from x d [] = d
last_from x d (c ∷ cs) = last_from x (or_else (given x c) d) cs

-- The last value that calls give to a field, 0 where none gives any.
abbrev pub last : Field → List Call → ℕ
last x cs = last_from x 0 cs

field-call :
    (x : Field) (c : Call) (m : RuntimeMetrics)
    → field x (call c m) ≡ or_else (given x c) (field x m)
unfolding call
field-call x c m = ground arith

field-calls :
    (x : Field) (cs : List Call) (m : RuntimeMetrics)
    → field x (calls cs m) ≡ last_from x (field x m) cs
field-calls x [] m = refl
field-calls x (c ∷ cs) m =
    field-calls x cs (call c m) ∙ ap (λ (d : ℕ). last_from x d cs) (field-call x c m)

-- However often and in whatever order the metrics were recorded since the start, the log line has
-- the two heap sizes and then, in its order, the value that each field was given last, or 0 where it
-- was given none; the idle time is always the placeholder.
pub log_snapshot-last :
    {F : Type 0} ⦃f : Float F⦄ (free_heap min_free_heap : ℕ) (cs : List Call)
    → log_snapshot {F = F} free_heap min_free_heap (calls cs init) ≡ (
      u32 free_heap
          ∷ u32 min_free_heap
          ∷ last used cs
          ∷ last arena cs
          ∷ last model cs
          ∷ last ring cs
          ∷ last feature cs
          ∷ last network cs
          ∷ last kws cs
          ∷ last extraction cs
          ∷ last loop cs
          ∷ [],
      estimate_idle_cpu_percent,
    )
unfolding log_snapshot snapshot init
log_snapshot-last free_heap min_free_heap cs =
    rw
      (
        field-calls used cs init,
        field-calls arena cs init,
        field-calls model cs init,
        field-calls ring cs init,
        field-calls feature cs init,
        field-calls network cs init,
        field-calls kws cs init,
        field-calls extraction cs init,
        field-calls loop cs init,
      )
      refl
