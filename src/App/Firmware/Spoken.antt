-- ===== src/App/Firmware/Spoken.antt =====
-- main/app_main.cpp: what the firmware has heard before a request, and what it then sends.
use vaani_edge.Base.{ℕ, ◌≤◌, ◌≡◌, Bool, true, false, ◌⊎◌, List, [], ◌++◌, ℤ, length, min}
use vaani_edge.Float.{Float}
use vaani_edge.Config.{pre_roll_samples}
use vaani_edge.Ring.Contents.{keep_last}
use vaani_edge.Net.{Net, IsLawful, IsBounded, IsReliable}
use vaani_edge.Transport.{LanTransport, is_ok, connect}
use vaani_edge.Audio.Contract.{AudioCapture, IsCapture}
use vaani_edge.App.Keyword.{Rtos, Stages}
use vaani_edge.App.Outcome.{IsComputed, IsScored}
use vaani_edge.App.Session.{IsSteady}
use vaani_edge.App.Wire.{AreSmall, IsQuiet}
use vaani_edge.App.Streaming.{Board, max_extra_frames}
use vaani_edge.App.SessionBytes.{start_bytes, session_bytes}
use vaani_edge.App.Tasks.Watcher.{IsQueue}
use vaani_edge.App.Firmware.{Firmware, Inbox}
use vaani_edge.App.Firmware.Sound.{IsInbox}
use vaani_edge.App.Firmware.Watched.{Sound}

-- The pre-roll behind a stream of samples, if the mutex is granted.
abbrev pub newest : Bool → ℕ → List ℕ → List ℕ
newest false capacity xs = []
newest true capacity xs = keep_last (min pre_roll_samples capacity) xs

module _ {F : Type 0} ⦃f : Float F⦄ {a : AudioCapture} {os : Rtos} {n : Net}
    (Working : a.State → Type 0) (queue_of : os.World → List (List ℕ))
    (is_open : n.World → ℤ → Bool) (laws : IsLawful n is_open) (lawful : IsCapture a Working)
    (queue : IsQueue os queue_of) (bounded : IsBounded n) (stages : Stages F)
    (scores : IsScored stages) (computes : IsComputed stages) (inbox : Inbox os)
    (gives : IsInbox os queue_of inbox) (board : Board n) (steady : IsSteady is_open board)
    (w : n.World) (wire : n.World → List ℕ) (reliable : IsReliable n wire)
    (quiet : IsQuiet wire board) where
  abbrev Fine : Firmware F a os n → Type 0
  Fine =
      Sound Working queue_of is_open laws lawful queue bounded stages scores computes inbox gives
        board steady w

  -- If the connection fails, nothing is put on the wire, and otherwise one session that begins with
  -- `early`; in `begun` there is only its first message.
  abbrev pub Sent : LanTransport → n.World → List ℕ → n.World → List ℕ → n.World → Type 0
  Sent t x id begun early y =
      ((is_ok (connect n t x).2 ≡ false) × (wire y ≡ wire x))
      ⊎ ((is_ok (connect n t x).2 ≡ true)
          × (wire begun ≡ wire x ++ start_bytes id)
          × ((chunks : List (List ℕ)) × (length chunks ≤ max_extra_frames)
              × AreSmall chunks
              × (wire y ≡ wire x ++ session_bytes id early chunks)))
