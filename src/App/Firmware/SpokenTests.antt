-- ===== src/App/Firmware/SpokenTests.antt =====
-- The firmware on the loopback network, with an inference that is sure of itself: three frames, the
-- detection of the keyword, and the session with them; a detection, and rounds of all tasks behind
-- it.
use vaani_edge.Base.{ℕ, ◌≤◌, ◌≡◌, refl, true, ◌⊎◌, some, List, [], ◌∷◌, replicate, length-replicate}
use Prim.{tt}
use vaani_edge.Float.{hundredths}
use vaani_edge.Config.{frame_size_samples, pre_roll_samples}
use vaani_edge.Net.Loopback.{quiet, is_open, loopback, loopback-IsLawful, loopback-IsBounded}
use vaani_edge.Audio.Contract.{mock, mock-IsCapture}
use vaani_edge.App.Firmware.Sound.{IsSound}
use vaani_edge.App.Keyword.{required_samples}
use vaani_edge.App.Firmware.{Firmware, Turn, captures, watches, logs, turn, run}
use vaani_edge.App.Firmware.Boot.{IsOn, started-IsSound}
use vaani_edge.App.Firmware.Tests.{inbox, inbox-IsInbox, begun, turns}
use vaani_edge.App.Firmware.Spaced.{watches_in, run-watches_in}
use vaani_edge.App.KeywordTests.{
  os, os-IsQueue, sure, sure-IsScored, sure-IsComputed, listener, granted_tick,
}
use vaani_edge.App.WireTests.{talking, talking-IsSteady}

abbrev hearing : List Turn
hearing =
    captures granted_tick
    ∷ logs 90000 80000
    ∷ captures granted_tick
    ∷ watches true
    ∷ captures granted_tick
    ∷ []

begun-IsSound : IsSound IsOn (λ w. w.queue) is_open loopback-IsLawful (quiet []) begun
begun-IsSound =
    started-IsSound (λ w. w.queue) is_open loopback-IsLawful os-IsQueue loopback-IsBounded sure
      sure-IsScored sure-IsComputed inbox inbox-IsInbox talking talking-IsSteady listener.world
      (quiet []) listener.result (replicate frame_size_samples 0) (replicate required_samples 0)
      (replicate pre_roll_samples 0) (replicate frame_size_samples 0) refl
      (length-replicate {A = ℕ} frame_size_samples 0) (length-replicate {A = ℕ} required_samples 0)
      (length-replicate {A = ℕ} pre_roll_samples 0) (length-replicate {A = ℕ} frame_size_samples 0)

run-watches_in_example :
    (s t : Firmware ℕ (mock ℕ) os loopback) × (turn sure inbox talking (watches true) begun
      ≡ some s)
    × (run sure inbox talking turns s ≡ some t)
    × ((s.requests ≡ begun.requests) ⊎ (t.requests ≡ s.requests) ⊎ (78 ≤ watches_in turns))
run-watches_in_example =
    run-watches_in IsOn (λ w. w.queue) is_open loopback-IsLawful (mock-IsCapture ℕ) os-IsQueue
      loopback-IsBounded sure sure-IsScored sure-IsComputed inbox inbox-IsInbox talking
      talking-IsSteady (quiet []) begun true turns begun-IsSound
      (tt, (tt, (tt, (record { magic = refl; session = refl }, (tt, (tt, tt))))))
