-- ===== src/App/SessionBytes.antt =====
-- main/app_main.cpp, `StreamingTask`: the messages of a session, and the last part of it on the wire
-- of a network on which no `send` fails.
use vaani_edge.Base.{
  ℕ, suc, ◌+◌, ◌≤◌, ◌≡◌, refl, ap, ◌∙◌, Bool, Option, some, List, [], ◌∷◌, ◌++◌, ℤ, arith, length,
  append_assoc, replicate,
}
use vaani_edge.Config.{session_timeout_ms, sample_rate_hz, audio_channels}
use vaani_edge.Trigger.{AppState, listening, session_complete}
use vaani_edge.Net.{Net, IsLawful, IsBounded, IsReliable}
use vaani_edge.Codec.{MessageHeader, MessageType, audio_chunk}
use vaani_edge.Codec.Decode.{IsRoomy}
use vaani_edge.Transport.{send_end_session, sample_bytes}
use vaani_edge.Transport.Receive.{receive_result_total}
use vaani_edge.Transport.Reliable.{
  frame_bytes, send_message-frame_bytes, receive_result_wire, disconnect_wire,
}
use vaani_edge.App.Session.{IsSteady, Ready, meanwhile-IsValid}
use vaani_edge.App.Wire.{AreSmall, IsQuiet, IsSending, numbered, stream_frames_wire}
use vaani_edge.App.Streaming.{
  Board, Station, max_extra_frames, force, hang_up, end_session, stream_live,
}

-- The message with the pre-roll, which is left out where there is none.
abbrev pub pre_roll_bytes : List ℕ → List ℕ → List ℕ
pre_roll_bytes sid [] = []
pre_roll_bytes sid (x ∷ xs) =
    frame_bytes audio_chunk sid 0 (sample_bytes (x ∷ xs)) sample_rate_hz audio_channels

-- The live chunks, numbered from one, and the end of the session.
abbrev pub live_bytes : List ℕ → List (List ℕ) → List ℕ
live_bytes sid chunks =
    numbered sid 1 chunks
    ++ frame_bytes MessageType.end_session sid (suc (length chunks)) [] 16000 1

abbrev pub start_bytes : List ℕ → List ℕ
start_bytes sid = frame_bytes MessageType.start_session sid 0 [] sample_rate_hz audio_channels

-- A session from its first message to its last.
abbrev pub session_bytes : List ℕ → List ℕ → List (List ℕ) → List ℕ
session_bytes sid early chunks =
    start_bytes sid ++ (pre_roll_bytes sid early ++ live_bytes sid chunks)

module _ (n : Net) (bounded : IsBounded n) (is_open : n.World → ℤ → Bool)
    (laws : IsLawful n is_open) (wire : n.World → List ℕ) (reliable : IsReliable n wire)
    (board : Board n) (steady : IsSteady is_open board) (quiet : IsQuiet wire board)
    (granted : Bool) (header : MessageHeader) (roomy : IsRoomy header) (sid : List ℕ)
    (sid_size : length sid ≡ 16) where
  open n use {World}

  abbrev pub Sending : Station n → Type 0
  Sending = IsSending n wire reliable board is_open steady quiet sid sid_size

  -- A part of the session that ends with `bytes` on the wire, and with the states forced that a
  -- complete session forces.
  abbrev pub Writes : Station n → Option (Station n) → List ℕ → Type 0
  Writes s r bytes =
      (t : Station n) × (r ≡ some t)
      × (wire t.world ≡ wire s.world ++ bytes)
      × (t.forced ≡ s.forced ++ (session_complete ∷ listening ∷ []))

  end_session_wire :
      (seq : ℕ) (s : Station n)
      → Sending s
      → Writes s
          (end_session board granted header sid seq s)
          (frame_bytes MessageType.end_session sid seq [] 16000 1)
  unfolding end_session force hang_up send_end_session
  end_session_wire seq s h =
      let (w1, sent, added) =
        send_message-frame_bytes n wire reliable s.transport MessageType.end_session sid seq []
          16000 1 s.world h.connected sid_size (omega arith) in
      let (r, received, _) =
        receive_result_total n bounded is_open laws s.transport header (replicate 512 0)
          session_timeout_ms w1 roomy (ground arith) (ground arith) in
      (
        force listening (
            force session_complete
              (hang_up (record s { world = r.0; ring = board.meanwhile s.ring r.0 }))),
        rw (sent, received) refl,
        disconnect_wire n wire reliable s.transport r.0
            ∙ receive_result_wire n wire reliable s.transport header (replicate 512 0) 512
                session_timeout_ms w1 r received
            ∙ added,
        append_assoc s.forced (session_complete ∷ []) (listening ∷ []),
      )

  pub stream_live_wire :
      (s : Station n)
      → Sending s
      → (chunks : List (List ℕ)) × (length chunks ≤ max_extra_frames)
        × AreSmall chunks
        × Writes s (stream_live board granted header sid s) (live_bytes sid chunks)
  unfolding stream_live
  stream_live_wire s h =
      let (ring, started, valid) =
        steady.start_inside (board.meanwhile s.ring s.world)
          (meanwhile-IsValid is_open board steady s.ring s.world h.ready.ring_valid) in
      let u : Station n = record s { ring = ring } in
      let ready : Ready u = record {
        ring_valid = valid;
        pre_roll_size = h.ready.pre_roll_size;
        frame_size = h.ready.frame_size;
      } in
      let (t, chunks, looped, few, sent) =
        stream_frames_wire n wire reliable board is_open steady quiet sid sid_size max_extra_frames
          1 u (omega arith) (record { connected = h.connected; ready = ready }) in
      let (v, ended, added, forced) = end_session_wire (1 + length chunks) t sent.sending in
      let next : 1 + length chunks ≡ suc (length chunks) = omega arith in
      (
        chunks,
        few,
        sent.sized,
        (
          v,
          rw (started, looped) ended,
          added
              ∙ ap
                  (λ (bs : List ℕ).
                    bs ++ frame_bytes MessageType.end_session sid (1 + length chunks) [] 16000 1)
                  sent.added
              ∙ append_assoc (wire s.world) (numbered sid 1 chunks) _
              ∙ ap
                  (λ (k : ℕ).
                    wire s.world
                    ++ (numbered sid 1 chunks
                        ++ frame_bytes MessageType.end_session sid k [] 16000 1))
                  next,
          forced
              ∙ ap (λ (f : List AppState). f ++ (session_complete ∷ listening ∷ [])) sent.unforced,
        ),
      )
