-- ===== src/App/Firmware/Tests.antt =====
-- The firmware on the loopback network, with an inference that is sure of itself: a round of each
-- task.
use vaani_edge.Base.{
  ℕ, ◌≡◌, refl, true, false, Option, none, some, List, [], ◌∷◌, replicate, length-replicate,
}
use Prim.{tt}
use vaani_edge.Float.{hundredths}
use vaani_edge.Config.{frame_size_samples, pre_roll_samples}
use vaani_edge.Net.Loopback.{quiet, is_open, loopback, loopback-IsLawful, loopback-IsBounded}
use vaani_edge.Audio.{g_audio_source}
use vaani_edge.Audio.Contract.{mock, mock-IsCapture}
use vaani_edge.App.Keyword.{required_samples}
use vaani_edge.App.Firmware.{
  Firmware, Inbox, Turn, captures, watches, streams, logs, turn, run, started,
}
use vaani_edge.App.Firmware.Sound.{IsInbox, IsSound}
use vaani_edge.App.Firmware.Turns.{Served}
use vaani_edge.App.Firmware.Boot.{IsOn, run-started}
use vaani_edge.App.KeywordTests.{
  World, os, os-IsQueue, sure, sure-IsScored, sure-IsComputed, listener, granted_tick,
}
use vaani_edge.App.Tests.{board, board-IsSteady, blank}

abbrev pop : List (List ℕ) → World → Option (List ℕ) × World
pop [] w = (none, w)
pop (id ∷ rest) w = (some id, record w { queue = rest })

abbrev pub inbox : Inbox os
inbox = record { queue_receive = λ w. pop w.queue w }

pub inbox-IsInbox : IsInbox os (λ w. w.queue) inbox
inbox-IsInbox = record {
  receive_blocked = λ w e. rw e refl;
  receive_front = λ w id rest e. rw e (refl, refl);
}

abbrev pub turns : List Turn
turns =
    captures granted_tick
    ∷ watches true
    ∷ captures granted_tick
    ∷ streams true blank
    ∷ watches false
    ∷ logs 90000 80000
    ∷ []

abbrev pub begun : Firmware ℕ (mock ℕ) os loopback
begun =
    started (mock ℕ) os loopback g_audio_source listener.world (quiet []) listener.result
      (replicate frame_size_samples 0) (replicate required_samples 0) (replicate pre_roll_samples 0)
      (replicate frame_size_samples 0)

run-started_example :
    (t : Firmware ℕ (mock ℕ) os loopback) × (run sure inbox board turns begun ≡ some t)
    × IsSound IsOn (λ w. w.queue) is_open loopback-IsLawful (quiet []) t
    × Served IsOn
        (λ w. w.queue)
        is_open
        loopback-IsLawful
        (mock-IsCapture ℕ)
        os-IsQueue
        loopback-IsBounded
        sure
        sure-IsScored
        sure-IsComputed
        inbox
        inbox-IsInbox
        board
        board-IsSteady
        (quiet [])
        (turn sure inbox board (streams true blank) t)
run-started_example =
    run-started (λ w. w.queue) is_open loopback-IsLawful os-IsQueue loopback-IsBounded sure
      sure-IsScored sure-IsComputed inbox inbox-IsInbox board board-IsSteady listener.world
      (quiet []) listener.result (replicate frame_size_samples 0) (replicate required_samples 0)
      (replicate pre_roll_samples 0) (replicate frame_size_samples 0) turns true blank refl
      (length-replicate {A = ℕ} frame_size_samples 0) (length-replicate {A = ℕ} required_samples 0)
      (length-replicate {A = ℕ} pre_roll_samples 0) (length-replicate {A = ℕ} frame_size_samples 0)
      (tt, (tt, (tt, (record { magic = refl; session = refl }, (tt, (tt, tt))))))
      (record { magic = refl; session = refl })
