-- ===== src/App/Outcome.antt =====
-- main/app_main.cpp, `KwsTask`: what a round of its loop may come to, in terms of the calls that it
-- makes.
use vaani_edge.Base.{
  is_zero, ℕ, ◌≡◌, Bool, true, false, some, List, [], ◌∷◌, ◌++◌, length, get_elem?, ◌*◌,
}
use vaani_edge.Float.{Float}
use vaani_edge.Config.{num_classes, num_frames, num_mel_bins}
use vaani_edge.Ring.{RingBuffer}
use vaani_edge.Ring.Valid.{IsValid}
use vaani_edge.Trigger.{TriggerStateMachine, listening, streaming, update, force_state}
use vaani_edge.Kws.{KwsResult}
use vaani_edge.App.Keyword.{Rtos, Stages, Listener, required_samples, keyword_index, is_detected}

-- The floats of `g_feature_buffer`.
abbrev pub feature_count : ℕ
feature_count = num_frames * num_mel_bins

-- The extractor stays inside its arrays on a full window and the feature buffer, whose size it
-- keeps.
pub record IsComputed {F : Type 0} (stages : Stages F) : Type 0 where
  pub computes :
      (window : List ℕ) (features : List F)
      → length window ≡ required_samples
      → length features ≡ feature_count
      → (r : List F × Bool) × (stages.compute window required_samples features ≡ some r)
        × (length r.0 ≡ feature_count)

-- An inference that reports success scores every class.
pub record IsScored {F : Type 0} (stages : Stages F) : Type 0 where
  pub scores :
      (features : List F) (result : KwsResult F)
      → is_zero (stages.run features result).1 ≡ true
      → length (stages.run features result).0.probabilities ≡ num_classes

-- A probability that an inference has reported with success.
pub record Reported {F : Type 0} (stages : Stages F) (p : F) : Type 0 where
  pub features : List F
  pub result : KwsResult F
  pub success : is_zero (stages.run features result).1 ≡ true
  pub score : get_elem? (stages.run features result).0.probabilities keyword_index ≡ some p

-- Worlds that differ by readings of the timer and by random numbers.
pub data Ticks (os : Rtos) (w : os.World) : os.World → Type 0 where
  here : Ticks os w w
  timed : (v : os.World) → Ticks os w v → Ticks os w (os.timer v).1
  drawn : (v : os.World) → Ticks os w v → Ticks os w (os.random v).1

-- What the task relies on between two rounds.
pub record IsFit {F : Type 0} (ring : RingBuffer ℕ) (window : List ℕ) (features : List F)
    : Type 0 where
  pub ring_valid : IsValid ring
  pub window_size : length window ≡ required_samples
  pub features_size : length features ≡ feature_count

abbrev pub Fit : {F : Type 0} {os : Rtos} → Listener F os → Type 0
Fit s = IsFit s.ring s.window_buffer s.features

module _ {F : Type 0} ⦃f : Float F⦄ {os : Rtos} (stages : Stages F) where
  -- From a trigger `m`, requests and a world to the listener afterwards. Nothing was scored; a score
  -- that detects nothing; a detection whose request the queue takes; one whose request it refuses.
  pub data Outcome (m : TriggerStateMachine F) (requests : List (List ℕ)) (w : os.World)
      (t : Listener F os) : Type 0 where
    kept : t.trigger ≡ m → t.requests ≡ requests → Ticks os w t.world → Outcome m requests w t
    missed :
        (p : F)
        → Reported stages p
        → is_detected (update p m).state ≡ false
        → t.trigger ≡ update p m
        → t.requests ≡ requests
        → Ticks os w t.world
        → Outcome m requests w t
    sent :
        (p : F) (id : List ℕ) (v : os.World)
        → Reported stages p
        → is_detected (update p m).state ≡ true
        → length id ≡ 16
        → Ticks os w v
        → (os.queue_send id v).0 ≡ true
        → t.world ≡ (os.queue_send id v).1
        → t.trigger ≡ force_state streaming (update p m)
        → t.requests ≡ requests ++ (id ∷ [])
        → Outcome m requests w t
    full :
        (p : F) (id : List ℕ) (v : os.World)
        → Reported stages p
        → is_detected (update p m).state ≡ true
        → Ticks os w v
        → (os.queue_send id v).0 ≡ false
        → t.world ≡ (os.queue_send id v).1
        → t.trigger ≡ force_state listening (update p m)
        → t.requests ≡ requests
        → Outcome m requests w t
