-- ===== src/Trigger/Tests.antt =====
-- A machine with threshold 0.80, two windows in a row and a cooldown of one window, on hundredths.
use vaani_edge.Base.{ℕ, ◌≡◌, ◌↔◌, refl, true, [], ◌∷◌, arith, pos, negsuc}
use vaani_edge.Float.{hundredths}
use vaani_edge.Trigger.{
  TriggerStateMachine, listening, keyword_detected, init, update, feed, positives,
}
use vaani_edge.Trigger.Invariant.{IsValid, init-IsValid, update-IsValid}
use vaani_edge.Trigger.Windows.{HasRun}
use vaani_edge.Trigger.Detection.{feed-detects}

abbrev machine : TriggerStateMachine ℕ
machine = record {
  threshold = 80;
  consecutive_positive_windows = 2;
  cooldown_windows = 1;
  consecutive_count = 1;
  cooldown_remaining = 0;
  state = listening;
}

machine-IsValid : IsValid machine
machine-IsValid = ground arith

one_is_not_enough :
    (feed (init {F = ℕ} 80 (pos 2) (negsuc 4)) (90 ∷ 10 ∷ 80 ∷ [])).state ≡ listening
unfolding feed init update
one_is_not_enough = refl

init-IsValid_example : IsValid (init {F = ℕ} 80 (negsuc 2) (pos 75))
init-IsValid_example = init-IsValid 80 (negsuc 2) (pos 75)

update-IsValid_example : IsValid (update 95 machine)
update-IsValid_example = update-IsValid 95 machine machine-IsValid

feed-detects_example :
    ((feed machine (90 ∷ [])).state ≡ keyword_detected) ↔ HasRun 2 (true ∷ true ∷ [])
unfolding positives
feed-detects_example = feed-detects machine (90 ∷ []) machine-IsValid refl
