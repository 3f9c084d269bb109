-- ===== src/App/StreamingTask.antt =====
-- main/app_main.cpp, `StreamingTask` from its start on. Attempts to take a request off the queue
-- that fail change nothing and are left out.
use vaani_edge.Base.{ℕ, Bool, Option, some, List, [], ◌∷◌, ◌>>=◌}
use vaani_edge.Config.{server_host, server_port, connect_timeout_ms}
use vaani_edge.Ring.{RingBuffer}
use vaani_edge.Net.{Net}
use vaani_edge.Codec.{MessageHeader}
use vaani_edge.Transport
use vaani_edge.App.Streaming.{Board, Station, stream_session}

-- What a round takes from outside: the session id of the request, the answer of the ring buffer's
-- mutex, what stands on the stack where `ReceiveResult` has its header, and the ring buffer as the
-- capture task has left it.
pub record Asked : Type 0 where
  pub session_id : List ℕ
  pub granted : Bool
  pub header : MessageHeader
  pub ring : RingBuffer ℕ

module _ {n : Net} (board : Board n) where
  -- The rounds of its loop, as many as are asked for.
  unfoldable pub streaming_rounds : List Asked → Station n → Option (Station n)
  streaming_rounds [] s = some s
  streaming_rounds (q ∷ qs) s =
      stream_session board q.granted q.header q.session_id (record s { ring = q.ring }) >>= λ t.
      streaming_rounds qs t

  -- The two arrays on its stack are not initialised.
  unfoldable pub streaming_task :
      List Asked → n.World → RingBuffer ℕ → List ℕ → List ℕ → Option (Station n)
  unfolding streaming_rounds
  streaming_task qs w ring pre_roll_buffer frame = streaming_rounds qs (record {
    world = w;
    ring = ring;
    transport = Transport.init server_host server_port connect_timeout_ms;
    pre_roll_buffer = pre_roll_buffer;
    frame = frame;
    forced = [];
  })
