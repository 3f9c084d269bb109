-- ===== src/App/WholeSession.antt =====
-- main/app_main.cpp, `StreamingTask`: everything that one round of its loop puts on the wire of a
-- network on which no `send` fails.
use vaani_edge.Base.{ℕ, ◌≤◌, ◌≡◌, Bool, true, false, Option, List, [], ◌∷◌, ◌++◌, ℤ, length}
use vaani_edge.Trigger.{listening, session_complete, error_recovery}
use vaani_edge.Net.{Net, IsLawful, IsBounded, IsReliable}
use vaani_edge.Codec.{MessageHeader}
use vaani_edge.Codec.Decode.{IsRoomy}
use vaani_edge.Transport.{is_ok, connect}
use vaani_edge.App.Session.{IsSteady}
use vaani_edge.App.Wire.{AreSmall, IsQuiet}
use vaani_edge.App.PreRoll.{pre_roll}
use vaani_edge.App.Streaming.{Board, Station, max_extra_frames}
use vaani_edge.App.SessionBytes.{start_bytes, session_bytes, Sending, Writes}

module _ (n : Net) (bounded : IsBounded n) (is_open : n.World → ℤ → Bool)
    (laws : IsLawful n is_open) (wire : n.World → List ℕ) (reliable : IsReliable n wire)
    (board : Board n) (steady : IsSteady is_open board) (quiet : IsQuiet wire board)
    (granted : Bool) (header : MessageHeader) (roomy : IsRoomy header) (sid : List ℕ)
    (sid_size : length sid ≡ 16) where
  open n use {World}

  abbrev Continues : Station n → Type 0
  Continues =
      Sending n bounded is_open laws wire reliable board steady quiet granted header roomy sid
        sid_size

  abbrev Leaves : Station n → Option (Station n) → List ℕ → Type 0
  Leaves =
      Writes n bounded is_open laws wire reliable board steady quiet granted header roomy sid
        sid_size

  -- The pre-roll, from the ring buffer as the other tasks have left it by the time the network is as
  -- in `x`.
  abbrev pub early_samples : Station n → World → List ℕ
  early_samples s x = pre_roll granted (board.meanwhile s.ring x)

  -- What a round of the streaming task comes to, from `s` to `t`.
  abbrev pub Unsent : Station n → Station n → Type 0
  Unsent s t =
      (is_ok (connect n s.transport s.world).2 ≡ false)
      × (wire t.world ≡ wire s.world)
      × (t.forced ≡ s.forced ++ (error_recovery ∷ listening ∷ []))

  abbrev pub Written : Station n → Station n → Type 0
  Written s t =
      (is_ok (connect n s.transport s.world).2 ≡ true)
      × ((x : World) × (wire x ≡ wire s.world ++ start_bytes sid)
          × (chunks : List (List ℕ)) × (length chunks ≤ max_extra_frames)
          × AreSmall chunks
          × (wire t.world ≡ wire s.world ++ session_bytes sid (early_samples s x) chunks)
          × (t.forced ≡ s.forced ++ (session_complete ∷ listening ∷ [])))
