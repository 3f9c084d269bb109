-- ===== src/Transport.antt =====
-- components/lan_transport, lan_transport.cpp: `class LanTransport` over the sockets of `Net`. A
-- method returns the new object, the new state of the network and its status, and `none` where it
-- would read or write outside an array. Logging is left out.
pub mod Sockets
pub mod Messages
pub mod Partial
pub mod Receive
pub mod Reliable
pub mod Framing
mod Tests
mod PartialTests
use vaani_edge.Base.{
  put, zero, ℕ, ◌+◌, ◌-◌, ◌*◌, ◌/◌, ◌%◌, Bool, true, false, not, ◌&&◌, ◌||◌, Option, none, some,
  List, [], ◌∷◌, ◌++◌, ltb, leb, ◌==◌, if◌then◌else◌, ◌>>=◌, length, take, replicate, memcpy, u32,
  sub32, ℤ, pos, negsuc, is_negative, to_ℕ,
}
use vaani_edge.Net.{Net, so_rcvtimeo, so_sndtimeo}
use vaani_edge.Codec.{
  HeaderFields, MessageHeader, MessageType, start_session, audio_chunk, end_session, error,
  message_type, pcm_s16_le, header_size, encode_header, decode_header,
}

pub data TransportStatus : Type 0 where
  ok connect_failed send_failed timeout protocol_error : TransportStatus

abbrev pub is_ok : TransportStatus → Bool
is_ok ok = true
is_ok _ = false

abbrev pub max_frame_bytes : ℕ
max_frame_bytes = 65536

pub record LanTransport : Type 0 where
  pub server_host : List ℕ
  pub server_port : ℕ
  pub connect_timeout_ms : ℕ
  pub socket_fd : ℤ
  pub connected : Bool

unfoldable pub init : List ℕ → ℕ → ℕ → LanTransport
init server_host server_port connect_timeout_ms = record {
  server_host = server_host;
  server_port = server_port;
  connect_timeout_ms = connect_timeout_ms;
  socket_fd = negsuc 0;
  connected = false;
}

-- The bytes of int16_t samples, given as their bit patterns, in the memory of a little-endian
-- machine.
unfoldable pub sample_bytes : List ℕ → List ℕ
sample_bytes [] = []
sample_bytes (x ∷ xs) = x % 256 ∷ x / 256 % 256 ∷ sample_bytes xs

module _ (n : Net) where
  open n use {World}

  -- What `Connect` does with the answers of `connect`, `socket` and `inet_pton`.
  unfoldable pub after_connect :
      ℤ → ℤ → LanTransport → World → LanTransport × World × TransportStatus
  after_connect (pos zero) fd t w = (record t { socket_fd = fd; connected = true }, w, ok)
  after_connect _ fd t w = (record t { socket_fd = negsuc 0 }, n.close fd w, connect_failed)

  unfoldable pub after_socket :
      ℤ → ℕ → LanTransport → World → LanTransport × World × TransportStatus
  unfolding after_connect
  after_socket (negsuc k) address t w = (record t { socket_fd = negsuc k }, w, connect_failed)
  after_socket (pos k) address t w =
      let seconds = t.connect_timeout_ms / 1000 in
      let micros = t.connect_timeout_ms % 1000 * 1000 in
      let w1 = n.setsockopt (pos k) so_rcvtimeo seconds micros w in
      let w2 = n.setsockopt (pos k) so_sndtimeo seconds micros w1 in
      let (r, w3) = n.connect (pos k) address (n.htons t.server_port) w2 in
      after_connect r (pos k) (record t { socket_fd = pos k }) w3

  unfoldable pub after_address :
      Option ℕ → LanTransport → World → LanTransport × World × TransportStatus
  unfolding after_socket
  after_address none t w = (t, w, connect_failed)
  after_address (some address) t w = let (fd, w1) = n.socket w in after_socket fd address t w1

  unfoldable pub connect : LanTransport → World → LanTransport × World × TransportStatus
  unfolding after_address
  connect t w = after_address (n.inet_pton t.server_host) t w

  unfoldable pub disconnect : LanTransport → World → LanTransport × World
  disconnect t w =
      if is_negative t.socket_fd
      then (record t { connected = false }, w)
      else (record t { socket_fd = negsuc 0; connected = false }, n.close t.socket_fd w)

  -- The two `send` calls of `SendMessage`.
  unfoldable pub send_frame : ℤ → List ℕ → List ℕ → World → World × TransportStatus
  send_frame fd header payload w =
      let (r, w1) = n.send fd header w in
      if is_negative r
      then (w1, send_failed)
      else if ltb 0 (length payload)
      then (let (r2, w2) = n.send fd payload w1 in (w2, if is_negative r2 then send_failed else ok))
      else (w1, ok)

  -- `SendMessage`. The payload is the `payload_len` bytes from `payload` on; it does not change the
  -- object.
  unfoldable pub send_message :
      LanTransport
      → MessageType
      → List ℕ
      → ℕ
      → List ℕ
      → ℕ
      → ℕ
      → World
      → Option (World × TransportStatus)
  unfolding send_frame
  send_message t type session_id sequence_number payload rate channels w =
      if not t.connected
      then some (w, send_failed)
      else if ltb max_frame_bytes (u32 (header_size + length payload))
      then some (w, protocol_error)
      else (encode_header
            (record {
              type = type;
              session_id = session_id;
              sequence_number = sequence_number;
              timestamp_ms = 0;
              payload_length = u32 (length payload);
              sample_rate_hz = rate;
              format = pcm_s16_le;
              channels = channels;
            })
            (replicate header_size 0)
          >>= λ header. some (send_frame t.socket_fd header payload w))

  unfoldable pub send_start_session :
      LanTransport → List ℕ → ℕ → ℕ → World → Option (World × TransportStatus)
  send_start_session t session_id rate channels w =
      send_message t start_session session_id 0 [] rate channels w

  -- `num_samples * sizeof(int16_t)` is a size_t.
  unfoldable pub send_audio_chunk :
      LanTransport → List ℕ → ℕ → List ℕ → ℕ → ℕ → ℕ → World → Option (World × TransportStatus)
  send_audio_chunk t session_id sequence_number samples num_samples rate channels w =
      let bytes = sample_bytes samples in
      let payload_len = u32 (num_samples * 2) in
      if leb payload_len (length bytes)
      then send_message t audio_chunk session_id sequence_number (take payload_len bytes) rate
          channels w
      else none

  unfoldable pub send_end_session :
      LanTransport → List ℕ → ℕ → World → Option (World × TransportStatus)
  send_end_session t session_id sequence_number w =
      send_message t end_session session_id sequence_number [] 16000 1 w

  -- The payload of `ReceiveResult`: the text buffer afterwards, or `none` in the pair for a failed
  -- `recv`.
  unfoldable pub receive_text : ℤ → ℕ → List ℕ → World → Option (World × List ℕ × Bool)
  receive_text fd to_read out_text w =
      if ltb 0 to_read
      then (let (r, bytes, w1) = n.recv fd to_read w in
          if is_negative r then some (w1, out_text, false) else do
            written ← memcpy out_text 0 bytes 0 (to_ℕ r)
            ended ← put written (to_ℕ r) 0
            some (w1, ended, true))
      else put out_text 0 0 >>= λ ended. some (w, ended, true)

  -- `ReceiveResult` behind a valid header.
  unfoldable pub receive_payload :
      ℤ → MessageHeader → List ℕ → ℕ → World → Option (World × List ℕ × TransportStatus)
  unfolding receive_text
  receive_payload fd h out_text capacity w =
      let limit = sub32 capacity 1 in
      receive_text fd (if ltb h.payload_length limit then h.payload_length else limit) out_text w
      >>= λ (w1, text, received). some (
        w1,
        text,
        if not received
            then timeout
            else if h.msg_type == message_type error
            then protocol_error
            else ok,
      )

  -- `ReceiveResult` behind the `recv` of the header, which returned `r` and wrote `bytes`.
  unfoldable pub receive_header :
      ℤ
      → ℤ
      → List ℕ
      → MessageHeader
      → List ℕ
      → ℕ
      → World
      → Option (World × List ℕ × TransportStatus)
  unfolding receive_payload
  receive_header fd r bytes header out_text capacity w =
      if is_negative r || not (to_ℕ r == header_size)
      then some (w, out_text, timeout)
      else (decode_header bytes header_size header >>= λ (valid, h).
          if valid
          then receive_payload fd h out_text capacity w
          else some (w, out_text, protocol_error))

  -- `ReceiveResult`: the network, the text buffer and the status. `header` stands for the
  -- uninitialised struct on the stack.
  unfoldable pub receive_result :
      LanTransport
      → MessageHeader
      → List ℕ
      → ℕ
      → ℕ
      → World
      → Option (World × List ℕ × TransportStatus)
  unfolding receive_header
  receive_result t header out_text capacity timeout_ms w =
      if not t.connected
      then some (w, out_text, timeout)
      else (let w1 =
            n.setsockopt t.socket_fd so_rcvtimeo (timeout_ms / 1000) (timeout_ms % 1000 * 1000) w in
          let (r, bytes, w2) = n.recv t.socket_fd header_size w1 in
          receive_header t.socket_fd r bytes header out_text capacity w2)
