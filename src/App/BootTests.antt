-- ===== src/App/BootTests.antt =====
-- The trigger from the start of the program on: a detection, a session, and as many high scores as
-- the next detection takes.
use vaani_edge.Base.{ℕ, ◌≤◌, ◌≡◌, refl, List, [], ◌∷◌, length, replicate, length-replicate}
use vaani_edge.Float.{hundredths}
use vaani_edge.Trigger
use vaani_edge.Trigger.{listening, streaming, update, force_state, feed}
use vaani_edge.App.Keyword.{required_samples}
use vaani_edge.App.Outcome.{Fit}
use vaani_edge.App.Globals.{g_trigger_sm, boot}
use vaani_edge.App.Boot.{IsConfigured, scored, g_trigger_sm_gap, boot-Fit}
use vaani_edge.App.KeywordTests.{os, listener}

abbrev high : List ℕ
high = replicate 78 90

g_trigger_sm_gap_example : 78 ≤ length high
unfolding g_trigger_sm Trigger.init feed update force_state
g_trigger_sm_gap_example =
    g_trigger_sm_gap (scored 90 ∷ scored 90 ∷ []) 90 high streaming refl refl refl

boot-Fit_example :
    Fit (boot os listener.world (replicate required_samples 0) listener.result)
    × IsConfigured (boot os listener.world (replicate required_samples 0) listener.result).trigger
    × ((boot os listener.world (replicate required_samples 0) listener.result).trigger.state
        ≡ listening)
boot-Fit_example =
    boot-Fit os listener.world (replicate required_samples 0) listener.result
      (length-replicate {A = ℕ} required_samples 0)
