-- ===== src/Trigger/Invariant.antt =====
-- What holds of a `TriggerStateMachine` between two calls.
use vaani_edge.Base.{
  ◌≤◌, ◌<◌, ◌≡◌, ◌⊎◌, inl, inr, refl, false, arith, ℤ, pos, negsuc, List, [], ◌∷◌,
}
use vaani_edge.Float.{Float}
use vaani_edge.Trigger.{
  TriggerStateMachine, AppState, listening, keyword_detected, streaming, session_complete,
  error_recovery, is_listening, init, update, force_state, feed,
}

-- A detection is still outstanding, the counters lie within their limits, and no positive window is
-- counted during the cooldown.
pub record IsValid {F : Type 0} (t : TriggerStateMachine F) : Type 0 where
  pub some_windows : 0 < t.consecutive_positive_windows
  pub count_lt : t.consecutive_count < t.consecutive_positive_windows
  pub cooldown_le : t.cooldown_remaining ≤ t.cooldown_windows
  pub quiet : 0 < t.cooldown_remaining → t.consecutive_count ≡ 0

-- The constructor makes a valid machine of any arguments, negative ones included.
pub init-IsValid : {F : Type 0} (threshold : F) (m n : ℤ) → IsValid (init threshold m n)
unfolding init
init-IsValid threshold (pos m) (pos n) = ground arith
init-IsValid threshold (pos m) (negsuc n) = ground arith
init-IsValid threshold (negsuc m) (pos n) = ground arith
init-IsValid threshold (negsuc m) (negsuc n) = ground arith

-- `ForceState` keeps the invariant, whatever the state.
pub force_state-IsValid :
    {F : Type 0} (s : AppState) (t : TriggerStateMachine F) → IsValid t → IsValid (force_state s t)
unfolding force_state
force_state-IsValid s t v = ground arith

pub listening_or_not : (a : AppState) → (a ≡ listening) ⊎ (is_listening a ≡ false)
listening_or_not listening = inl refl
listening_or_not keyword_detected = inr refl
listening_or_not streaming = inr refl
listening_or_not session_complete = inr refl
listening_or_not error_recovery = inr refl

module _ {F : Type 0} ⦃f : Float F⦄ where
  -- `Update` keeps the invariant, in every state and for every probability.
  pub update-IsValid : (p : F) (t : TriggerStateMachine F) → IsValid t → IsValid (update p t)
  unfolding update
  update-IsValid p t v = ground arith

  pub feed-IsValid : (t : TriggerStateMachine F) (ps : List F) → IsValid t → IsValid (feed t ps)
  unfolding feed
  feed-IsValid t [] v = v
  feed-IsValid t (p ∷ ps) v = feed-IsValid (update p t) ps (update-IsValid p t v)
