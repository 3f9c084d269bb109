-- ===== src/App/Boot.antt =====
-- main/app_main.cpp: what holds of the shared objects from the start on.
use vaani_edge.Base.{
  ℕ, ◌*◌, ◌≤◌, ◌≡◌, refl, subst, pos, List, [], ◌∷◌, arith, length, replicate, length-replicate,
}
use vaani_edge.Float.{Float}
use vaani_edge.Config.{
  ring_buffer_samples, num_frames, num_mel_bins, consecutive_windows, detection_threshold,
}
use vaani_edge.Ring
use vaani_edge.Ring.{RingBuffer}
use vaani_edge.Ring.Valid
use vaani_edge.Trigger
use vaani_edge.Trigger.{
  TriggerStateMachine, AppState, listening, keyword_detected, update, force_state, feed,
}
use vaani_edge.Trigger.Invariant
use vaani_edge.Trigger.Invariant.{IsValid, update-IsValid, force_state-IsValid}
use vaani_edge.Trigger.Detection.{detection_gap}
use vaani_edge.Kws.{KwsResult}
use vaani_edge.App.Keyword.{Rtos, required_samples}
use vaani_edge.App.Outcome.{Fit}
use vaani_edge.App.Globals.{g_ring_buffer, g_feature_buffer, g_trigger_sm, cooldown_hops, boot}

-- The calls that change the trigger.
pub data Touch (F : Type 0) : Type 0 where
  scored : F → Touch F
  forced : AppState → Touch F

module _ {F : Type 0} ⦃f : Float F⦄ where
  abbrev pub touch : Touch F → TriggerStateMachine F → TriggerStateMachine F
  touch (scored p) t = update p t
  touch (forced s) t = force_state s t

  abbrev pub touches : List (Touch F) → TriggerStateMachine F → TriggerStateMachine F
  touches [] t = t
  touches (c ∷ cs) t = touches cs (touch c t)

  -- A machine with the constants of main/app_config.h.
  pub record IsConfigured (t : TriggerStateMachine F) : Type 0 where
    pub valid : IsValid t
    pub threshold : t.threshold ≡ detection_threshold
    pub windows : t.consecutive_positive_windows ≡ consecutive_windows
    pub cooldown : t.cooldown_windows ≡ cooldown_hops

  pub touch-IsConfigured :
      (c : Touch F) (t : TriggerStateMachine F) → IsConfigured t → IsConfigured (touch c t)
  unfolding update force_state
  touch-IsConfigured (scored p) t h = record {
    valid = update-IsValid p t h.valid;
    threshold = ground (arith, h.threshold);
    windows = ground (arith, h.windows);
    cooldown = ground (arith, h.cooldown);
  }
  touch-IsConfigured (forced s) t h = record {
    valid = force_state-IsValid s t h.valid;
    threshold = ground (arith, h.threshold);
    windows = ground (arith, h.windows);
    cooldown = ground (arith, h.cooldown);
  }

  pub touches-IsConfigured :
      (cs : List (Touch F)) (t : TriggerStateMachine F)
      → IsConfigured t
      → IsConfigured (touches cs t)
  touches-IsConfigured [] t h = h
  touches-IsConfigured (c ∷ cs) t h = touches-IsConfigured cs (touch c t) (touch-IsConfigured c t h)

  pub g_trigger_sm-IsConfigured : IsConfigured g_trigger_sm
  unfolding g_trigger_sm Trigger.init
  g_trigger_sm-IsConfigured = record {
    valid =
        Trigger.Invariant.init-IsValid detection_threshold (pos consecutive_windows)
          (pos cooldown_hops);
    threshold = refl;
    windows = refl;
    cooldown = refl;
  }

  -- With the firmware's constants, whatever scores and forced states the trigger has had since the
  -- start: if it listens and the next score is a detection, then, through whatever state the session
  -- takes it back to listening, the next detection takes at least 78 further scores, 75 of cooldown
  -- and three in a row.
  pub g_trigger_sm_gap :
      (cs : List (Touch F)) (p : F) (ps : List F) (between : AppState)
      → (touches cs g_trigger_sm).state ≡ listening
      → (update p (touches cs g_trigger_sm)).state ≡ keyword_detected
      → (feed
          (force_state listening (force_state between (update p (touches cs g_trigger_sm))))
          ps).state
        ≡ keyword_detected
      → 78 ≤ length ps
  g_trigger_sm_gap cs p ps between l hit again =
      let t : TriggerStateMachine F = touches cs g_trigger_sm in
      let h = touches-IsConfigured cs g_trigger_sm g_trigger_sm-IsConfigured in
      omega (arith, detection_gap t p ps between h.valid l hit again, h.windows, h.cooldown)

  -- Before its first round, whatever the uninitialised arrays hold, the keyword task finds all that
  -- its rounds rely on: a valid ring buffer, arrays of their sizes, and a trigger that is valid, has the
  -- constants of main/app_config.h and is listening.
  pub boot-Fit :
      (os : Rtos) (w : os.World) (window : List ℕ) (result : KwsResult F)
      → length window ≡ required_samples
      → Fit (boot os w window result)
        × IsConfigured (boot os w window result).trigger
        × ((boot {F = F} os w window result).trigger.state ≡ listening)
  unfolding boot g_feature_buffer g_ring_buffer g_trigger_sm Trigger.init
  boot-Fit os w window result size = (
    record {
      ring_valid =
          subst
            (λ (k : ℕ). Ring.Valid.IsValid (Ring.init (replicate {A = ℕ} ring_buffer_samples 0) k))
            (length-replicate {A = ℕ} ring_buffer_samples 0)
            (Ring.Valid.init-IsValid (replicate {A = ℕ} ring_buffer_samples 0)
              (omega (arith, length-replicate {A = ℕ} ring_buffer_samples 0))
              (omega (arith, length-replicate {A = ℕ} ring_buffer_samples 0)));
      window_size = size;
      features_size = length-replicate {A = F} (num_frames * num_mel_bins) (f.lit 0 0);
    },
    g_trigger_sm-IsConfigured,
    refl,
  )
