-- ===== src/Transport/Reliable.antt =====
-- The transport on a network on which no `send` fails: what is on the wire after each call.
use vaani_edge.Base.{
  of_bind, ◌==◌, ℕ, ◌+◌, ◌*◌, ◌%◌, ◌≤◌, ◌/◌, ◌≡◌, refl, ap, ◌∙◌, Bool, true, false, not, inl, inr,
  Option, none, some, List, [], ◌∷◌, ◌++◌, arith, length, take, ltb, leb, u32, ℤ, pos, negsuc,
  is_negative, append_assoc, append-nil, length-take, to_ℕ, sub32, if◌then◌else◌, zero, suc, ◌||◌,
  Bool-cases,
}
use vaani_edge.Net.{Net, IsReliable, so_rcvtimeo, so_sndtimeo}
use vaani_edge.Codec.{MessageHeader, MessageType, audio_chunk, header_size, decode_header}
use vaani_edge.Codec.Encode.{header_bytes}
use vaani_edge.Transport.{
  LanTransport, TransportStatus, ok, max_frame_bytes, sample_bytes, send_frame, send_message,
  send_audio_chunk, after_connect, after_socket, after_address, connect, disconnect, receive_text,
  receive_payload, receive_header, receive_result,
}
use vaani_edge.Transport.Messages.{message_fields, length-sample_bytes, send_message_lem}

-- A message as it stands on the wire.
abbrev pub frame_bytes : MessageType → List ℕ → ℕ → List ℕ → ℕ → ℕ → List ℕ
frame_bytes type sid seq payload rate channels =
    header_bytes (message_fields type sid seq (length payload) rate channels) ++ payload

pub sample_bytes-append :
    (xs ys : List ℕ) → sample_bytes (xs ++ ys) ≡ sample_bytes xs ++ sample_bytes ys
unfolding sample_bytes
sample_bytes-append [] ys = refl
sample_bytes-append (x ∷ xs) ys = rw (sample_bytes-append xs ys) refl

module _ (n : Net) (wire : n.World → List ℕ) (reliable : IsReliable n wire) where
  open n use {World}

  send_frame-ok :
      (fd : ℤ) (header bytes : List ℕ) (v : World)
      → ((send_frame n fd header bytes v).1 ≡ ok)
        × (wire (send_frame n fd header bytes v).0 ≡ wire v ++ (header ++ bytes))
  unfolding send_frame
  send_frame-ok fd header [] v = ground (
    arith,
    reliable.send_succeeds fd header v,
    reliable.complete.send_all fd header v,
    append-nil header,
  )
  send_frame-ok fd header (b ∷ bytes) v = ground (
    arith,
    reliable.send_succeeds fd header v,
    reliable.complete.send_all fd header v,
    reliable.send_succeeds fd (b ∷ bytes) (n.send fd header v).1,
    reliable.complete.send_all fd (b ∷ bytes) (n.send fd header v).1,
    append_assoc (wire v) header (b ∷ bytes),
  )

  pub send_message-frame_bytes :
      (t : LanTransport) (type : MessageType) (sid : List ℕ) (seq : ℕ) (payload : List ℕ)
      (rate channels : ℕ) (w : World)
      → t.connected ≡ true
      → length sid ≡ 16
      → header_size + length payload ≤ max_frame_bytes
      → (w' : World) × (send_message n t type sid seq payload rate channels w ≡ some (w', ok))
        × (wire w' ≡ wire w ++ frame_bytes type sid seq payload rate channels)
  send_message-frame_bytes t type sid seq payload rate channels w up e fits =
      let h : List ℕ = header_bytes (message_fields type sid seq (length payload) rate channels) in
      let small : ltb max_frame_bytes (u32 (header_size + length payload)) ≡ false = ground arith in
      let sent = send_frame-ok t.socket_fd h payload w in
      (
        (send_frame n t.socket_fd h payload w).0,
        send_message_lem n t type sid seq payload rate channels w e
            ∙ rw (up, small)
                (ap (λ (s : TransportStatus). some ((send_frame n t.socket_fd h payload w).0, s))
                  sent.0),
        sent.1,
      )

  after_socket_wire :
      (fd : ℤ) (a : ℕ) (t : LanTransport) (w : World) → wire (after_socket n fd a t w).1 ≡ wire w
  unfolding after_socket after_connect
  after_socket_wire (negsuc k) a t w = refl
  after_socket_wire (pos k) a t w =
      let seconds : ℕ = t.connect_timeout_ms / 1000 in
      let micros : ℕ = t.connect_timeout_ms % 1000 * 1000 in
      let w1 : World = n.setsockopt (pos k) so_rcvtimeo seconds micros w in
      let w2 : World = n.setsockopt (pos k) so_sndtimeo seconds micros w1 in
      answered (n.connect (pos k) a (n.htons t.server_port) w2).0 (record t { socket_fd = pos k }) _
      ∙ reliable.connect_wire (pos k) a (n.htons t.server_port) w2
      ∙ reliable.setsockopt_wire (pos k) so_sndtimeo seconds micros w1
      ∙ reliable.setsockopt_wire (pos k) so_rcvtimeo seconds micros w
    where
      answered :
          (r : ℤ) (u : LanTransport) (v : World) → wire (after_connect n r (pos k) u v).1 ≡ wire v
      answered (pos zero) u v = refl
      answered (pos (suc i)) u v = reliable.close_wire (pos k) v
      answered (negsuc i) u v = reliable.close_wire (pos k) v

  pub connect_wire : (t : LanTransport) (w : World) → wire (connect n t w).1 ≡ wire w
  unfolding connect after_address
  connect_wire t w = go (n.inet_pton t.server_host)
    where
      go : (a : Option ℕ) → wire (after_address n a t w).1 ≡ wire w
      go none = refl
      go (some a) = after_socket_wire (n.socket w).0 a t (n.socket w).1 ∙ reliable.socket_wire w

  pub disconnect_wire : (t : LanTransport) (w : World) → wire (disconnect n t w).1 ≡ wire w
  unfolding disconnect
  disconnect_wire t w = ground (arith, reliable.close_wire t.socket_fd w)

  receive_text_wire :
      (fd : ℤ) (k : ℕ) (out : List ℕ) (w : World) (r : World × List ℕ × Bool)
      → receive_text n fd k out w ≡ some r
      → wire r.0 ≡ wire w
  unfolding receive_text
  receive_text_wire fd k out w r e = ground (arith, reliable.recv_wire fd k w)

  receive_payload_wire :
      (fd : ℤ) (h : MessageHeader) (out : List ℕ) (k : ℕ) (w : World)
      (r : World × List ℕ × TransportStatus)
      → receive_payload n fd h out k w ≡ some r
      → wire r.0 ≡ wire w
  unfolding receive_payload
  receive_payload_wire fd h out k w r e =
      let limit : ℕ = sub32 k 1 in
      let to_read : ℕ = if ltb h.payload_length limit then h.payload_length else limit in
      let (x, text, rest) = of_bind (receive_text n fd to_read out w) _ r e in
      let read = receive_text_wire fd to_read out w x text in ground arith

  receive_header_wire :
      (fd r : ℤ) (bytes : List ℕ) (header : MessageHeader) (out : List ℕ) (k : ℕ) (w : World)
      (x : World × List ℕ × TransportStatus)
      → receive_header n fd r bytes header out k w ≡ some x
      → wire x.0 ≡ wire w
  unfolding receive_header
  receive_header_wire fd r bytes header out k w x e =
      elim (Bool-cases (is_negative r || not (to_ℕ r == header_size))) [
        | inl short ↦ ground arith
        | inr whole ↦
            let ((valid, h), decoded, rest) =
              of_bind (decode_header bytes header_size header) _ x (rw whole at e) in
            elim (Bool-cases valid) [
              | inl good ↦ receive_payload_wire fd h out k w x (rw good at rest)
              | inr bad ↦ ground arith
            ]
      ]

  pub receive_result_wire :
      (t : LanTransport) (header : MessageHeader) (out : List ℕ) (k timeout_ms : ℕ) (w : World)
      (x : World × List ℕ × TransportStatus)
      → receive_result n t header out k timeout_ms w ≡ some x
      → wire x.0 ≡ wire w
  unfolding receive_result
  receive_result_wire t header out k timeout_ms w x e = elim (Bool-cases t.connected) [
    | inl up ↦
        let w1 : World =
          n.setsockopt t.socket_fd so_rcvtimeo (timeout_ms / 1000) (timeout_ms % 1000 * 1000) w in
        let got : ℤ × List ℕ × World = n.recv t.socket_fd header_size w1 in
        receive_header_wire t.socket_fd got.0 got.1 header out k got.2 x (rw up at e)
        ∙ reliable.recv_wire t.socket_fd header_size w1
        ∙ reliable.setsockopt_wire _ _ _ _ w
    | inr down ↦ ground arith
  ]

  pub send_audio_chunk-frame_bytes :
      (t : LanTransport) (sid : List ℕ) (seq : ℕ) (samples : List ℕ) (count rate channels : ℕ)
      (w : World)
      → t.connected ≡ true
      → length sid ≡ 16
      → count ≤ length samples
      → count ≤ 32000
      → (w' : World) × (send_audio_chunk n t sid seq samples count rate channels w ≡ some (w', ok))
        × (wire w'
            ≡ wire w
              ++ frame_bytes audio_chunk sid seq
                  (take (count * 2) (sample_bytes samples))
                  rate
                  channels)
  unfolding send_audio_chunk
  send_audio_chunk-frame_bytes t sid seq samples count rate channels w up e fits small =
      let exact : u32 (count * 2) ≡ count * 2 = omega arith in
      let room : leb (count * 2) (length (sample_bytes samples)) ≡ true =
        ground (arith, length-sample_bytes samples) in
      rw (exact, room)
        (send_message-frame_bytes t audio_chunk sid seq (take (count * 2) (sample_bytes samples))
          rate channels w up e
          (omega
            (arith, length-take (count * 2) (sample_bytes samples), length-sample_bytes samples)))
