-- ===== src/App/Firmware/Sound.antt =====
-- main/app_main.cpp: what holds of the shared objects between two rounds of any tasks.
use vaani_edge.Base.{ℕ, ◌≡◌, ◌⊎◌, Bool, none, some, List, [], ◌∷◌, length, ℤ}
use vaani_edge.Float.{Float}
use vaani_edge.Config.{frame_size_samples}
use vaani_edge.Trigger.{AppState, listening, streaming}
use vaani_edge.Net.{Net, IsLawful}
use vaani_edge.Transport.Sockets.{IsIdle, SameOpen}
use vaani_edge.Audio.Contract.{AudioCapture}
use vaani_edge.App.Keyword.{Rtos}
use vaani_edge.App.Outcome.{Fit}
use vaani_edge.App.Session.{Ready}
use vaani_edge.App.Boot.{IsConfigured}
use vaani_edge.App.Firmware.{Firmware, Inbox, listener, station}

-- `xQueueReceive` takes the request at the front; on an empty queue the task is blocked.
pub record IsInbox (os : Rtos) (queue_of : os.World → List (List ℕ)) (inbox : Inbox os)
    : Type 0 where
  pub receive_blocked : (w : os.World) → queue_of w ≡ [] → inbox.queue_receive w ≡ (none, w)
  pub receive_front :
      (w : os.World) (id : List ℕ) (rest : List (List ℕ))
      → queue_of w ≡ id ∷ rest
      → ((inbox.queue_receive w).0 ≡ some id) × (queue_of (inbox.queue_receive w).1 ≡ rest)

-- Either the trigger listens and there is no request, or it is streaming and there is one, with a
-- session id of 16 bytes.
abbrev pub Agreed : AppState → List (List ℕ) → Type 0
Agreed state queue =
    ((queue ≡ []) × (state ≡ listening))
    ⊎ ((id : List ℕ) × (queue ≡ id ∷ []) × (length id ≡ 16) × (state ≡ streaming))

module _ {F : Type 0} ⦃f : Float F⦄ {a : AudioCapture} {os : Rtos} {n : Net}
    (Working : a.State → Type 0) (queue_of : os.World → List (List ℕ))
    (is_open : n.World → ℤ → Bool) (laws : IsLawful n is_open) where
  -- `w` is the network before the start.
  pub record IsSound (w : n.World) (s : Firmware F a os n) : Type 0 where
    pub source_works : Working s.source
    pub frame_there :
        (frame : List ℕ) × (s.capture_frame ≡ some frame) × (length frame ≡ frame_size_samples)
    pub fit : Fit (listener s)
    pub ready : Ready (station s)
    pub idle : IsIdle s.transport
    pub same_open : SameOpen n is_open laws w s.net_world
    pub configured : IsConfigured s.trigger
    pub agreed : Agreed s.trigger.state (queue_of s.os_world)
