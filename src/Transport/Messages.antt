-- ===== src/Transport/Messages.antt =====
-- The three messages that the firmware sends: what goes out on the wire, when none does, and that
-- no array bound is missed.
use vaani_edge.Base.{
  ℕ, ◌+◌, ◌*◌, ◌^◌, ◌≤◌, ◌<◌, ◌≡◌, refl, ap, sym, ◌∙◌, Bool, true, not, some, List, [], ◌∷◌, ◌++◌,
  arith, length, drop, replicate, ltb, u32, ℤ, append_assoc, append-nil, length-append,
  drop-append_left, if◌then◌else◌,
}
use vaani_edge.Net.{Net, IsLawful, IsComplete}
use vaani_edge.Codec.{
  HeaderFields, MessageHeader, MessageType, pcm_s16_le, header_size, encode_header, decode_header,
}
use vaani_edge.Codec.Encode.{header_bytes, length-header_bytes, encode_header-header_bytes}
use vaani_edge.Codec.Decode.{IsHeader, IsRoomy, decoded, decode_header-header_bytes}
use vaani_edge.Transport.{
  LanTransport, TransportStatus, ok, send_failed, protocol_error, max_frame_bytes, sample_bytes,
  send_frame, send_message,
}

-- The header of a message.
abbrev pub message_fields : MessageType → List ℕ → ℕ → ℕ → ℕ → ℕ → HeaderFields
message_fields type session_id sequence_number payload_len rate channels = record {
  type = type;
  session_id = session_id;
  sequence_number = sequence_number;
  timestamp_ms = 0;
  payload_length = u32 payload_len;
  sample_rate_hz = rate;
  format = pcm_s16_le;
  channels = channels;
}

pub length-sample_bytes : (xs : List ℕ) → length (sample_bytes xs) ≡ length xs * 2
unfolding sample_bytes
length-sample_bytes [] = refl
length-sample_bytes (x ∷ xs) = omega (arith, length-sample_bytes xs)

module _ (n : Net) where
  open n use {World}

  -- `SendMessage` with the header written out.
  pub send_message_lem :
      (t : LanTransport) (type : MessageType) (sid : List ℕ) (seq : ℕ) (payload : List ℕ)
      (rate channels : ℕ) (w : World)
      → length sid ≡ 16
      → send_message n t type sid seq payload rate channels w
        ≡ some (
            if not t.connected
            then (w, send_failed)
            else if ltb max_frame_bytes (u32 (header_size + length payload))
            then (w, protocol_error)
            else send_frame n t.socket_fd
                (header_bytes (message_fields type sid seq (length payload) rate channels))
                payload
                w)
  unfolding send_message
  send_message_lem t type sid seq payload rate channels w e =
      let h : HeaderFields = message_fields type sid seq (length payload) rate channels in
      let written : encode_header h (replicate header_size 0) ≡ some (header_bytes h) =
        encode_header-header_bytes h (replicate header_size 0) e (omega arith)
        ∙ ap some (append-nil (header_bytes h)) in
      rw written (ground arith)

  module _ (wire : n.World → List ℕ) (complete : IsComplete n wire) where
    send_frame-wire :
        (fd : ℤ) (header payload : List ℕ) (w : World)
        → (send_frame n fd header payload w).1 ≡ ok
        → wire (send_frame n fd header payload w).0 ≡ wire w ++ (header ++ payload)
    unfolding send_frame
    send_frame-wire fd header [] w h =
        ground (arith, complete.send_all fd header w, append-nil header)
    send_frame-wire fd header (b ∷ payload) w h = ground (
      arith,
      complete.send_all fd header w,
      complete.send_all fd (b ∷ payload) (n.send fd header w).1,
      append_assoc (wire w) header (b ∷ payload),
    )

    -- If `SendMessage` reports success over a socket whose `send` sends all it is given, with a
    -- 16-byte session id, a payload of fewer than 2^31 bytes and numbers within their C types,
    -- exactly one frame of at most 65536 bytes has gone out: a header that `DecodeHeader` accepts
    -- and decodes to the fields of the message, followed by the payload.
    pub send_message-wire :
        (t : LanTransport) (type : MessageType) (sid : List ℕ) (seq : ℕ) (payload : List ℕ)
        (rate channels : ℕ) (w w' : World) (out : MessageHeader)
        → length sid ≡ 16
        → seq < 2 ^ 32
        → rate < 2 ^ 32
        → length payload < 2 ^ 31
        → IsRoomy out
        → send_message n t type sid seq payload rate channels w ≡ some (w', ok)
        → (frame : List ℕ) × (wire w' ≡ wire w ++ frame)
          × (decode_header frame (length frame) out
              ≡ some (true, decoded (message_fields type sid seq (length payload) rate channels)))
          × (drop header_size frame ≡ payload)
          × (length frame ≤ max_frame_bytes)
    send_message-wire t type sid seq payload rate channels w w' out e hs hr hp room sent =
        let h : HeaderFields = message_fields type sid seq (length payload) rate channels in
        let fits : IsHeader h = ground arith in
        let whole = sym (send_message_lem t type sid seq payload rate channels w e) ∙ sent in
        let size : length (header_bytes h) ≡ header_size = length-header_bytes h e in
        let both : length (header_bytes h ++ payload) ≡ header_size + length payload =
          omega (arith, length-append (header_bytes h) payload, size) in
        (
          header_bytes h ++ payload,
          ground (arith, whole, send_frame-wire t.socket_fd (header_bytes h) payload w),
          decode_header-header_bytes h payload _ out fits room (omega (arith, both)),
          drop-append_left (header_bytes h) payload header_size size,
          ground (arith, whole, both),
        )

  module _ (is_open : n.World → ℤ → Bool) (laws : IsLawful n is_open) where
    -- Sending neither opens nor closes a socket, and always comes to an end inside its arrays.
    pub send_message_total :
        (t : LanTransport) (type : MessageType) (sid : List ℕ) (seq : ℕ) (payload : List ℕ)
        (rate channels : ℕ) (w : World)
        → length sid ≡ 16
        → (w' : World) × (s : TransportStatus) × (send_message n t type sid seq payload rate
              channels w
            ≡ some (w', s))
          × ((x : ℤ) → is_open w' x ≡ is_open w x)
    unfolding send_frame
    send_message_total t type sid seq payload rate channels w e =
        let r = send_message_lem t type sid seq payload rate channels w e in
        let h : List ℕ =
          header_bytes (message_fields type sid seq (length payload) rate channels) in
        (
          _,
          _,
          r,
          λ x. ground (
            arith,
            laws.send_keeps t.socket_fd h w x,
            laws.send_keeps t.socket_fd payload (n.send t.socket_fd h w).1 x,
          ),
        )
