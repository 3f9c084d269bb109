-- ===== src/App/KwsTask.antt =====
-- main/app_main.cpp, `KwsTask` from its start on, with the extractor and the inference of the
-- firmware.
use vaani_edge.Base.{ℕ, Bool, Option, some, List, [], ◌∷◌, if◌then◌else◌, ◌>>=◌, is_zero}
use vaani_edge.Float.{Float}
use vaani_edge.Ring.{RingBuffer}
use vaani_edge.Features.{FeatureExtractor}
use vaani_edge.Kws
use vaani_edge.Kws.{Tflm, KwsInference}
use vaani_edge.App.Keyword.{Rtos, Stages, Listener, set_sizes, kws_round}
use vaani_edge.App.Placeholder.{firmware}

-- What a round takes from outside: the answer of the ring buffer's mutex, and the ring buffer as
-- the capture task has left it.
pub record Given : Type 0 where
  pub granted : Bool
  pub ring : RingBuffer ℕ

-- In the loop that waits for ever behind a failed `Init`, or in the loop behind a successful one.
pub data Watching (F : Type 0) (os : Rtos) : Type 0 where
  halted : Listener F os → Watching F os
  watching : Listener F os → Watching F os

module _ {F : Type 0} ⦃f : Float F⦄ {os : Rtos} where
  -- The rounds of its loop, as many as are given.
  unfoldable pub kws_rounds : Stages F → List Given → Listener F os → Option (Listener F os)
  kws_rounds stages [] s = some s
  kws_rounds stages (g ∷ gs) s =
      kws_round stages g.granted (record s { ring = g.ring }) >>= λ (t, ms). kws_rounds stages gs t

  unfoldable pub kws_task :
      Tflm F
      → List ℕ
      → ℕ
      → FeatureExtractor F
      → KwsInference F
      → List Given
      → Listener F os
      → Option (Watching F os)
  unfolding kws_rounds
  kws_task tflm model_data model_data_len x k gs s =
      let (loaded, status) = Kws.initialize tflm model_data model_data_len k in
      if is_zero status
      then (kws_rounds (firmware x loaded) gs (record s { metrics = set_sizes s.metrics }) >>= λ t.
          some (watching t))
      else some (halted s)
