-- ===== src/App/KwsTaskTests.antt =====
-- The keyword task with an interpreter that gets its tensors, on a full ring buffer.
use vaani_edge.Base.{ℕ, ◌≡◌, true, false, some, List, [], ◌∷◌, pos, negsuc, ◌⊎◌}
use Prim.{tt}
use vaani_edge.Float.{hundredths}
use vaani_edge.Kws
use vaani_edge.Kws.{Tflm, KwsInference}
use vaani_edge.Kws.Loading.{IsLoadable, Refused, initialize-IsLoadable}
use vaani_edge.App.KwsTask.{Given, Watching, kws_task}
use vaani_edge.App.Silence.{Silent, kws_task-Silent}
use vaani_edge.App.KeywordTests.{os, listener, listener-Fit, extractor, full, full-IsValid}

-- A model is its version.
abbrev tflm : Tflm ℕ
tflm = record {
  Model = ℕ;
  get_model = λ bytes. 3;
  version = λ m. m;
  schema_version = 3;
  allocate_tensors = λ m ops size. true;
  input_params = λ m ops. (1, pos 0);
  output_params = λ m ops. (1, pos 0);
}

abbrev givens : List Given
givens = record { granted = true; ring = full } ∷ record { granted = false; ring = full } ∷ []

kws_task-Silent_example :
    (c : Watching ℕ os) × (kws_task tflm (28 ∷ 0 ∷ []) 2 extractor Kws.init givens listener
      ≡ some c)
    × Silent tflm (28 ∷ 0 ∷ []) 2 Kws.init listener c
kws_task-Silent_example =
    kws_task-Silent tflm (28 ∷ 0 ∷ []) 2 extractor Kws.init givens listener
      (full-IsValid, (full-IsValid, tt)) listener-Fit

abbrev loaded : KwsInference ℕ
loaded = record {
  initialized = true;
  input_scale = 1;
  input_zero_point = pos 0;
  output_scale = 1;
  output_zero_point = pos 0;
}

initialize-IsLoadable_example :
    ((IsLoadable tflm (28 ∷ []) 1 × (pos 0 ≡ pos 0) × (true ≡ true))
      ⊎ (Refused tflm (28 ∷ []) 1 (pos 0) × (loaded ≡ Kws.init)))
    × ((Kws.run loaded (5 ∷ []) listener.result).1 ≡ negsuc 0)
unfolding Kws.initialize
initialize-IsLoadable_example =
    initialize-IsLoadable tflm (28 ∷ []) 1 Kws.init (5 ∷ []) listener.result
