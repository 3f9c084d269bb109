-- ===== src/Kws/Loading.antt =====
-- components/kws_inference: when `Init` succeeds, and what `Run` does after it.
use vaani_edge.Base.{
  ℕ, ◌≡◌, ◌≢◌, refl, ◌⊎◌, inl, inr, true, false, List, ◌==◌, arith, ℤ, pos, negsuc, Bool-cases,
}
use vaani_edge.Float.{Float}
use vaani_edge.Config.{tensor_arena_bytes}
use vaani_edge.Kws.{Tflm, KwsInference, KwsResult, ops, initialize, run}

module _ {F : Type 0} ⦃f : Float F⦄ (tflm : Tflm F) (model_data : List ℕ) (len : ℕ) where
  run-status :
      (k : KwsInference F) (features : List F) (result : KwsResult F)
      → (run k features result).1 ≡ negsuc 0
  unfolding run
  run-status k features result = ground arith

  -- A model that is there, of this schema, whose tensors fit the arena.
  pub record IsLoadable : Type 0 where
    pub there : len ≢ 0
    pub schema : tflm.version (tflm.get_model model_data) ≡ tflm.schema_version
    pub tensors : tflm.allocate_tensors (tflm.get_model model_data) ops tensor_arena_bytes ≡ true

  -- The first reason against it.
  abbrev pub Refused : ℤ → Type 0
  Refused status =
      ((len ≡ 0) × (status ≡ negsuc 0))
      ⊎ ((len ≢ 0)
          × (tflm.version (tflm.get_model model_data) ≢ tflm.schema_version)
          × (status ≡ negsuc 1))
      ⊎ ((len ≢ 0)
          × (tflm.version (tflm.get_model model_data) ≡ tflm.schema_version)
          × (tflm.allocate_tensors (tflm.get_model model_data) ops tensor_arena_bytes ≡ false)
          × (status ≡ negsuc 2))

  -- `Init` returns 0 for a loadable model, and then the object is initialised; otherwise it returns
  -- the number of the first reason against the model, -1 to -3, and leaves the object as it was.
  -- In both cases `Run` on that object returns -1.
  pub initialize-IsLoadable :
      (k : KwsInference F) (features : List F) (result : KwsResult F)
      → let (k', status) = initialize tflm model_data len k in
        ((IsLoadable × (status ≡ pos 0) × (k'.initialized ≡ true)) ⊎ (Refused status × (k' ≡ k)))
        × ((run k' features result).1 ≡ negsuc 0)
  unfolding initialize
  initialize-IsLoadable k features result = (
    elim (Bool-cases (len == 0)) [
      | inl empty ↦ inr (inl (ground arith, rw empty refl), rw empty refl)
      | inr there ↦ elim (Bool-cases (tflm.version m == tflm.schema_version)) [
        | inr other ↦
            inr (
              inr (inl (ground arith, ground arith, rw (there, other) refl)),
              rw (there, other) refl,
            )
        | inl same ↦ elim (Bool-cases (tflm.allocate_tensors m ops tensor_arena_bytes)) [
          | inr large ↦ inr (
            inr (inr (ground arith, ground arith, large, rw (there, same, large) refl)),
            rw (there, same, large) refl,
          )
          | inl fits ↦ inl (
            record { there = ground arith; schema = ground arith; tensors = fits },
            rw (there, same, fits) refl,
            rw (there, same, fits) refl,
          )
        ]
      ]
    ],
    run-status (initialize tflm model_data len k).0 features result,
  )
    where
      m : tflm.Model
      m = tflm.get_model model_data
