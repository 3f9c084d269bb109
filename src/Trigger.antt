-- ===== src/Trigger.antt =====
-- components/trigger_state_machine: `class TriggerStateMachine`, which turns the keyword
-- probability of each window into the state of the application. The `int` fields are never negative
-- after construction, and no counter passes the configured limits, so they are natural numbers.
pub mod Invariant
pub mod Windows
pub mod Detection
mod Tests
use vaani_edge.Base.{
  ℕ, ◌+◌, ◌-◌, Bool, true, false, ltb, leb, if◌then◌else◌, List, [], ◌∷◌, ℤ, is_positive, to_ℕ,
}
use vaani_edge.Float.{Float}

pub data AppState : Type 0 where
  listening keyword_detected streaming session_complete error_recovery : AppState

pub record TriggerStateMachine (F : Type 0) : Type 0 where
  pub threshold : F
  pub consecutive_positive_windows : ℕ
  pub cooldown_windows : ℕ
  pub consecutive_count : ℕ
  pub cooldown_remaining : ℕ
  pub state : AppState

-- `state_ == AppState::kListening`
abbrev pub is_listening : AppState → Bool
is_listening listening = true
is_listening _ = false

module _ {F : Type 0} where
  unfoldable pub init : F → ℤ → ℤ → TriggerStateMachine F
  init threshold windows cooldown = record {
    threshold = threshold;
    consecutive_positive_windows = if is_positive windows then to_ℕ windows else 1;
    cooldown_windows = if is_positive cooldown then to_ℕ cooldown else 0;
    consecutive_count = 0;
    cooldown_remaining = 0;
    state = listening;
  }

  unfoldable pub force_state : AppState → TriggerStateMachine F → TriggerStateMachine F
  force_state state t =
      if is_listening state
      then record t { state = state; consecutive_count = 0 }
      else record t { state = state }

module _ {F : Type 0} ⦃f : Float F⦄ where
  -- The part of `Update` after the cooldown: count the window, and detect on enough of them.
  unfoldable pub count_window : F → TriggerStateMachine F → TriggerStateMachine F
  count_window probability t =
      let count = if f.ge probability t.threshold then t.consecutive_count + 1 else 0 in
      if leb t.consecutive_positive_windows count
      then record t {
        consecutive_count = 0;
        cooldown_remaining = t.cooldown_windows;
        state = keyword_detected;
      }
      else record t { consecutive_count = count }

  -- `Update`; its result is the `state` of the new machine.
  unfoldable pub update : F → TriggerStateMachine F → TriggerStateMachine F
  unfolding count_window
  update probability t =
      if is_listening t.state
      then if ltb 0 t.cooldown_remaining
        then record t { cooldown_remaining = t.cooldown_remaining - 1; consecutive_count = 0 }
        else count_window probability t
      else t

  -- Which windows reach a threshold.
  unfoldable pub positives : F → List F → List Bool
  positives threshold [] = []
  positives threshold (p ∷ ps) = f.ge p threshold ∷ positives threshold ps

  -- `Update` on one window after another.
  unfoldable pub feed : TriggerStateMachine F → List F → TriggerStateMachine F
  feed t [] = t
  feed t (p ∷ ps) = feed (update p t) ps
