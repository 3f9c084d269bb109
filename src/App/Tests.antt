-- ===== src/App/Tests.antt =====
-- A round of the streaming task on the loopback network, on which nothing ever comes back, with a
-- ring buffer that never has a new frame.
use vaani_edge.Base.{
  ℕ, ◌≡◌, refl, true, false, some, List, [], ◌∷◌, ◌++◌, arith, replicate, length-replicate, pos,
  negsuc,
}
use vaani_edge.Config.{pre_roll_samples, frame_size_samples}
use vaani_edge.Ring
use vaani_edge.Ring.{RingBuffer}
use vaani_edge.Ring.Valid.{init-IsValid}
use vaani_edge.Ring.Stream.{nothing-IsRecorded}
use vaani_edge.Trigger.{listening, streaming, session_complete}
use vaani_edge.Net.Loopback.{quiet, is_open, loopback, loopback-IsLawful, loopback-IsBounded}
use vaani_edge.Codec.{MessageHeader}
use vaani_edge.App.Streaming.{Board, Station, stream_live, stream_session}
use vaani_edge.App.Session.{IsSteady, IsReady, IsHeld, IsBack, Ended}
use vaani_edge.App.Ends.{stream_session-Ended, stream_live-session_complete}

abbrev pub board : Board loopback
board = record {
  start_streaming = λ r. some r;
  read_streaming = λ r frame n. some (r, frame, 0);
  meanwhile = λ r w. r;
  task_delay = λ ms r w. (r, w);
}

pub board-IsSteady : IsSteady is_open board
board-IsSteady = record {
  start_inside = λ r v. (r, refl, v);
  read_inside = λ r frame v size. (r, frame, 0, refl, v, size, omega arith);
  meanwhile_records = λ r w v. ([], nothing-IsRecorded r v);
  delay_valid = λ ms r w v. v;
  delay_open = λ ms r w x. refl;
}

abbrev pub station : Station loopback
station = record {
  world = quiet [];
  ring = Ring.init (0 ∷ 0 ∷ 0 ∷ []) 3;
  transport = record {
    server_host = 49 ∷ [];
    server_port = 8765;
    connect_timeout_ms = 5000;
    socket_fd = negsuc 0;
    connected = false;
  };
  pre_roll_buffer = replicate pre_roll_samples 0;
  frame = replicate frame_size_samples 0;
  forced = streaming ∷ [];
}

abbrev pub blank : MessageHeader
blank = record {
  magic = 0 ∷ 0 ∷ 0 ∷ 0 ∷ [];
  version = 0;
  msg_type = 0;
  sample_rate_hz = 0;
  format = 0;
  channels = 0;
  sequence_number = 0;
  timestamp_ms = 0;
  session_id = replicate 16 0;
  payload_length = 0;
}

abbrev pub session : List ℕ
session = 1 ∷ 2 ∷ 3 ∷ 4 ∷ 5 ∷ 6 ∷ 7 ∷ 8 ∷ 9 ∷ 10 ∷ 11 ∷ 12 ∷ 13 ∷ 14 ∷ 15 ∷ 16 ∷ []

pub station-IsReady : IsReady station.ring station.pre_roll_buffer station.frame
station-IsReady = record {
  ring_valid = init-IsValid (0 ∷ 0 ∷ 0 ∷ []) (omega arith) (omega arith);
  pre_roll_size = length-replicate {A = ℕ} pre_roll_samples 0;
  frame_size = length-replicate {A = ℕ} frame_size_samples 0;
}

stream_session-Ended_example :
    (t : Station loopback) × (stream_session board true blank session station ≡ some t)
    × IsBack loopback loopback-IsBounded is_open loopback-IsLawful (quiet []) t
    × Ended loopback loopback-IsBounded is_open loopback-IsLawful (streaming ∷ []) t
stream_session-Ended_example =
    stream_session-Ended loopback loopback-IsBounded is_open loopback-IsLawful board board-IsSteady
      true blank session (record { magic = refl; session = refl }) refl station
      (record { no_socket = refl; not_connected = refl }) station-IsReady

-- The same station with a connection.
abbrev connected : Station loopback
connected = record station {
  world = (loopback.socket (quiet [])).1;
  transport = record station.transport { socket_fd = pos 0; connected = true };
}

connected-IsHeld :
    IsHeld loopback loopback-IsBounded is_open loopback-IsLawful
      (quiet [])
      (streaming ∷ [])
      connected
connected-IsHeld = record {
  live = record { a_socket = refl; is_connected = refl };
  more = (refl, λ x. loopback-IsLawful.socket_opens (quiet []) 0 x refl);
  ready = station-IsReady;
  unforced = refl;
}

stream_live-session_complete_example :
    (t : Station loopback) × (stream_live board true blank session connected ≡ some t)
    × IsBack loopback loopback-IsBounded is_open loopback-IsLawful (quiet []) t
    × (t.forced ≡ (streaming ∷ []) ++ (session_complete ∷ listening ∷ []))
stream_live-session_complete_example =
    stream_live-session_complete loopback loopback-IsBounded is_open loopback-IsLawful board
      board-IsSteady true blank session (record { magic = refl; session = refl }) refl (quiet [])
      (streaming ∷ []) connected connected-IsHeld
