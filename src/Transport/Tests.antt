-- ===== src/Transport/Tests.antt =====
-- The transport on the loopback network: connected, one audio chunk, a reply of four characters.
use vaani_edge.Base.{
  ℕ, ◌≤◌, ◌≡◌, refl, true, false, some, List, [], ◌∷◌, ◌++◌, arith, length, drop, replicate, put,
  memcpy, splice, pos, negsuc,
}
use vaani_edge.Net.Loopback.{
  World, quiet, is_open, loopback, loopback-IsLawful, loopback-IsBounded, loopback-IsComplete,
}
use vaani_edge.Codec.{
  MessageHeader, audio_chunk, header_size, encode_header, decode_header, protocol_magic,
  write_u32_be, write_u64_be, read_u32_be, read_u64_be,
}
use vaani_edge.Codec.Decode.{IsRoomy, decoded}
use vaani_edge.Transport.{
  LanTransport, TransportStatus, ok, connect, send_message, send_frame, receive_result,
  receive_header, receive_payload, receive_text, max_frame_bytes,
}
use vaani_edge.Transport.Sockets.{IsIdle, Connected, connect-Connected}
use vaani_edge.Transport.Messages.{message_fields, send_message-wire}
use vaani_edge.Transport.Receive.{IsReceived, receive_result_total}

abbrev idle : LanTransport
idle = record {
  server_host = 49 ∷ [];
  server_port = 8765;
  connect_timeout_ms = 5000;
  socket_fd = negsuc 0;
  connected = false;
}

abbrev pub live : LanTransport
live = record idle { socket_fd = pos 0; connected = true }

idle-IsIdle : IsIdle idle
idle-IsIdle = record { no_socket = refl; not_connected = refl }

abbrev up : World
up = (loopback.socket (quiet [])).1

abbrev pub session : List ℕ
session = 1 ∷ 2 ∷ 3 ∷ 4 ∷ 5 ∷ 6 ∷ 7 ∷ 8 ∷ 9 ∷ 10 ∷ 11 ∷ 12 ∷ 13 ∷ 14 ∷ 15 ∷ 16 ∷ []

abbrev blank : MessageHeader
blank = record {
  magic = 0 ∷ 0 ∷ 0 ∷ 0 ∷ [];
  version = 0;
  msg_type = 0;
  sample_rate_hz = 0;
  format = 0;
  channels = 0;
  sequence_number = 0;
  timestamp_ms = 0;
  session_id = replicate 16 0;
  payload_length = 0;
}

blank-IsRoomy : IsRoomy blank
blank-IsRoomy = record { magic = refl; session = refl }

connect-Connected_example : Connected loopback is_open loopback-IsLawful (quiet []) live up ok
unfolding connect
connect-Connected_example =
    connect-Connected loopback is_open loopback-IsLawful idle (quiet []) idle-IsIdle

-- One audio chunk of two samples, and a reply whose text is `ok`.
abbrev frame : ℕ → ℕ → List ℕ
frame type size =
    protocol_magic
    ++ (1 ∷ type ∷ 0 ∷ 0 ∷ 0x3e ∷ 0x80 ∷ 0 ∷ 1 ∷ 0 ∷ 0 ∷ 0 ∷ 1 ∷ []
        ++ (replicate 8 0 ++ (session ++ (0 ∷ 0 ∷ 0 ∷ size ∷ []))))

abbrev pub payload : List ℕ
payload = 1 ∷ 0 ∷ 255 ∷ 255 ∷ []

abbrev sent : World
sent = record up { wire = frame 2 4 ++ payload }

send-chunk : send_message loopback live audio_chunk session 1 payload 16000 1 up ≡ some (sent, ok)
unfolding send_message send_frame encode_header put write_u32_be write_u64_be memcpy splice
send-chunk = refl

send_message-wire_example :
    (bytes : List ℕ) × (sent.wire ≡ up.wire ++ bytes)
    × (decode_header bytes (length bytes) blank
        ≡ some (true, decoded (message_fields audio_chunk session 1 4 16000 1)))
    × (drop header_size bytes ≡ payload)
    × (length bytes ≤ max_frame_bytes)
send_message-wire_example =
    send_message-wire loopback (λ w. w.wire) loopback-IsComplete live audio_chunk session 1 payload
      16000 1 up sent blank refl (omega arith) (omega arith) (omega arith) blank-IsRoomy send-chunk

abbrev answered : World
answered = record up { inbox = frame 5 2 ++ (111 ∷ 107 ∷ []) }

receive-answer :
    receive_result loopback live blank (replicate 8 1) 8 15000 answered
    ≡ some (record up { inbox = [] }, 111 ∷ 107 ∷ 0 ∷ replicate 5 1, ok)
unfolding receive_result receive_header receive_payload receive_text decode_header read_u32_be
    read_u64_be put memcpy splice
receive-answer = refl

receive_result_total_example :
    (r : World × List ℕ × TransportStatus) × (receive_result loopback live blank
        (replicate 8 1)
        8
        15000
        answered
      ≡ some r)
    × IsReceived loopback loopback-IsBounded is_open loopback-IsLawful answered (replicate 8 1) r
receive_result_total_example =
    receive_result_total loopback loopback-IsBounded is_open loopback-IsLawful live blank
      (replicate 8 1) 15000 answered blank-IsRoomy (omega arith) (omega arith)
