-- ===== src/Kws.antt =====
-- components/kws_inference: `class KwsInference`, and the length of the embedded model. TensorFlow
-- Lite Micro is an interface. The tensor arena, which only the interpreter uses, and the log are
-- left out.
pub mod Loading
use vaani_edge.Base.{
  ℕ, ◌==◌, Bool, true, false, not, List, [], ◌∷◌, replicate, ℤ, pos, negsuc, if◌then◌else◌,
}
use vaani_edge.Float.{Float}
use vaani_edge.Config.{num_classes, tensor_arena_bytes}

pub data Op : Type 0 where
  conv_2d max_pool_2d depthwise_conv_2d fully_connected softmax reshape mean : Op

-- The scale and the zero point of a tensor's quantization.
abbrev pub Quantization : Type 0 → Type 0
Quantization F = F × ℤ

-- `allocate_tensors` is whether an interpreter with these operators and an arena of this size gets
-- its tensors.
pub record Tflm (F : Type 0) : Type 1 where
  pub Model : Type 0
  pub get_model : List ℕ → Model
  pub version : Model → ℕ
  pub schema_version : ℕ
  pub allocate_tensors : Model → List Op → ℕ → Bool
  pub input_params : Model → List Op → Quantization F
  pub output_params : Model → List Op → Quantization F

pub record KwsResult (F : Type 0) : Type 0 where
  pub probabilities : List F
  pub inference_duration_us : ℕ

pub record KwsInference (F : Type 0) : Type 0 where
  pub initialized : Bool
  pub input_scale : F
  pub input_zero_point : ℤ
  pub output_scale : F
  pub output_zero_point : ℤ

abbrev pub ops : List Op
ops = conv_2d ∷ max_pool_2d ∷ depthwise_conv_2d ∷ fully_connected ∷ softmax ∷ reshape ∷ mean ∷ []

module _ {F : Type 0} ⦃f : Float F⦄ where
  unfoldable pub init : KwsInference F
  init = record {
    initialized = false;
    input_scale = f.lit 1 0;
    input_zero_point = pos 0;
    output_scale = f.lit 1 0;
    output_zero_point = pos 0;
  }

  -- `Init`, the first call: the object and the return value.
  unfoldable pub initialize : Tflm F → List ℕ → ℕ → KwsInference F → KwsInference F × ℤ
  initialize tflm model_data model_data_len k =
      let model = tflm.get_model model_data in
      if model_data_len == 0
      then (k, negsuc 0)
      else if not (tflm.version model == tflm.schema_version)
      then (k, negsuc 1)
      else if not (tflm.allocate_tensors model ops tensor_arena_bytes)
      then (k, negsuc 2)
      else (
        record {
          initialized = true;
          input_scale = (tflm.input_params model ops).0;
          input_zero_point = (tflm.input_params model ops).1;
          output_scale = (tflm.output_params model ops).0;
          output_zero_point = (tflm.output_params model ops).1;
        },
        pos 0,
      )

  -- `Run`: what `result` points to afterwards, and the return value.
  unfoldable pub run : KwsInference F → List F → KwsResult F → KwsResult F × ℤ
  run k features result = if not k.initialized then (result, negsuc 0) else (
    record { probabilities = replicate num_classes (f.lit 0 0); inference_duration_us = 0 },
    negsuc 0,
  )
