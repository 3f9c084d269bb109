-- ===== src/Trigger/Detection.antt =====
-- When a `TriggerStateMachine` detects the keyword.
use vaani_edge.Base.{
  ℕ, zero, suc, ◌+◌, ◌-◌, ◌≤◌, ◌<◌, ◌≡◌, ◌↔◌, ◌⊎◌, refl, ap, inl, inr, Bool, true, false, List, [],
  ◌∷◌, ◌++◌, arith, length, replicate, drop, ltb, if◌then◌else◌, length-append, length-replicate,
  length-drop, Bool-cases,
}
use vaani_edge.Float.{Float}
use vaani_edge.Trigger.{
  TriggerStateMachine, AppState, listening, keyword_detected, is_listening, update, force_state,
  feed, positives,
}
use vaani_edge.Trigger.Invariant.{IsValid, update-IsValid, force_state-IsValid}
use vaani_edge.Trigger.Windows.{HasRun, HasRun-length, scan, scan_cons, scan→HasRun, HasRun→scan}

drop_cons : (n : ℕ) (b : Bool) (bs : List Bool) → 0 < n → drop n (b ∷ bs) ≡ drop (n - 1) bs
drop_cons zero b bs h = elim h [ ]
drop_cons (suc n) b bs h = ap (λ k. drop k bs) (omega arith)

drop_none : (n : ℕ) → drop {A = Bool} n [] ≡ []
drop_none zero = refl
drop_none (suc n) = refl

module _ {F : Type 0} ⦃f : Float F⦄ where
  -- Outside the listening state no window changes anything.
  pub feed_unless_listening :
      (t : TriggerStateMachine F) (ps : List F) → is_listening t.state ≡ false → feed t ps ≡ t
  unfolding feed update
  feed_unless_listening t [] h = refl
  feed_unless_listening t (p ∷ ps) h = rw h (feed_unless_listening t ps h)

  found : TriggerStateMachine F → List F → Bool
  found t ps =
      scan t.consecutive_positive_windows t.consecutive_count
        (drop t.cooldown_remaining (positives t.threshold ps))

  -- One window, in the cooldown and outside it.
  found-cooling :
      (t : TriggerStateMachine F) (p : F) (ps : List F)
      → IsValid t
      → t.state ≡ listening
      → 0 < t.cooldown_remaining
      → ((update p t).state ≡ listening) × (found (update p t) ps ≡ found t (p ∷ ps))
  unfolding found positives update
  found-cooling t p ps v l h =
      ground (arith, drop_cons t.cooldown_remaining (f.ge p t.threshold) (positives t.threshold ps))

  found-counting :
      (t : TriggerStateMachine F) (p : F) (ps : List F)
      → IsValid t
      → t.state ≡ listening
      → t.cooldown_remaining ≡ 0
      → (((update p t).state ≡ keyword_detected) × (found t (p ∷ ps) ≡ true))
        ⊎ (((update p t).state ≡ listening) × (found (update p t) ps ≡ found t (p ∷ ps)))
  unfolding found positives update
  found-counting t p ps v l h = ground (
    arith,
    scan_cons t.consecutive_positive_windows t.consecutive_count (f.ge p t.threshold)
        (positives t.threshold ps),
  )

  found-nil : (t : TriggerStateMachine F) → found t [] ≡ false
  unfolding found positives scan
  found-nil t = rw drop_none refl

  feed-found :
      (t : TriggerStateMachine F) (ps : List F)
      → IsValid t
      → t.state ≡ listening
      → (feed t ps).state ≡ (if found t ps then keyword_detected else listening)
  unfolding feed
  feed-found t [] v l = rw found-nil l
  feed-found t (p ∷ ps) v l = elim (Bool-cases (ltb 0 t.cooldown_remaining)) [
    | inl cooling ↦
        let (same, e) = found-cooling t p ps v l (ground arith) in
        rw (← e) (feed-found (update p t) ps (update-IsValid p t v) same)
    | inr over ↦ ground (
      arith,
      found-counting t p ps v l,
      feed-found (update p t) ps (update-IsValid p t v),
      feed_unless_listening (update p t) ps,
    )
  ]

  -- From a valid listening machine, a sequence of windows ends in a detection exactly when enough
  -- windows in a row reach the threshold, after those that the cooldown swallows and continuing
  -- those counted already.
  pub feed-detects :
      (t : TriggerStateMachine F) (ps : List F)
      → IsValid t
      → t.state ≡ listening
      → ((feed t ps).state ≡ keyword_detected)
        ↔ HasRun t.consecutive_positive_windows (
            replicate t.consecutive_count true
            ++ drop t.cooldown_remaining (positives t.threshold ps))
  unfolding found
  feed-detects t ps v l = (
    λ e. scan→HasRun _ _ _ v.count_lt (ground (arith, feed-found t ps v l)),
    λ run. ground (
      arith,
      feed-found t ps v l,
      HasRun→scan t.consecutive_positive_windows t.consecutive_count
          (drop t.cooldown_remaining (positives t.threshold ps)) v.count_lt run,
    ),
  )

  length-positives : (th : F) (ps : List F) → length (positives th ps) ≡ length ps
  unfolding positives
  length-positives th [] = refl
  length-positives th (p ∷ ps) = ap suc (length-positives th ps)

  resumed_fields :
      (t : TriggerStateMachine F) (p : F) (between : AppState)
      → t.state ≡ listening
      → (update p t).state ≡ keyword_detected
      → let u = force_state listening (force_state between (update p t)) in
        (u.state ≡ listening)
        × (u.consecutive_count ≡ 0)
        × (u.cooldown_remaining ≡ t.cooldown_windows)
        × (u.consecutive_positive_windows ≡ t.consecutive_positive_windows)
  unfolding update force_state
  resumed_fields t p between l hit = ground arith

  -- After a detection, and whatever states the session then goes through, a machine that listens
  -- again needs the whole cooldown and then a full run before it can detect again.
  pub detection_gap :
      (t : TriggerStateMachine F) (p : F) (ps : List F) (between : AppState)
      → IsValid t
      → t.state ≡ listening
      → (update p t).state ≡ keyword_detected
      → (feed (force_state listening (force_state between (update p t))) ps).state
        ≡ keyword_detected
      → t.cooldown_windows + t.consecutive_positive_windows ≤ length ps
  detection_gap t p ps between v l hit again =
      let u : TriggerStateMachine F = force_state listening (force_state between (update p t)) in
      let w : IsValid u =
        force_state-IsValid listening _ (force_state-IsValid between _ (update-IsValid p t v)) in
      let (lu, none_yet, cooling, same) = resumed_fields t p between l hit in
      let bs : List Bool = positives u.threshold ps in
      omega (
        arith,
        HasRun-length _ _ ((feed-detects u ps w lu).0 again),
        length-append (replicate u.consecutive_count true) (drop u.cooldown_remaining bs),
        length-replicate u.consecutive_count true,
        length-drop u.cooldown_remaining bs,
        length-positives u.threshold ps,
      )
