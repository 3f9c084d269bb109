-- ===== src/App/Firmware.antt =====
-- main/app_main.cpp: the four tasks over the objects that they share. A turn is one round of a task
-- from one of its waits to the next; the accesses of two tasks to the trigger and the queue inside
-- such rounds are interleaved in App/Tasks.
pub mod Sound
pub mod Watched
pub mod Turns
pub mod Hearing
pub mod Spoken
pub mod Spaced
pub mod Boot
mod Tests
mod SpokenTests
use vaani_edge.Base.{ℕ, Bool, Option, none, some, List, [], ◌∷◌, ◌++◌, ◌>>=◌}
use vaani_edge.Float.{Float}
use vaani_edge.Ring.{RingBuffer}
use vaani_edge.Trigger.{TriggerStateMachine}
use vaani_edge.Net.{Net}
use vaani_edge.Codec.{MessageHeader}
use vaani_edge.Transport
use vaani_edge.Transport.{LanTransport}
use vaani_edge.Config.{server_host, server_port, connect_timeout_ms}
use vaani_edge.App.Globals.{boot}
use vaani_edge.Metrics.{RuntimeMetrics}
use vaani_edge.Kws.{KwsResult}
use vaani_edge.Audio.Contract.{AudioCapture}
use vaani_edge.App.Capture.{Recorder, Tick, capture_round}
use vaani_edge.App.Keyword.{Rtos, Stages, Listener, set_sizes, kws_round}
use vaani_edge.App.Streaming.{Board, Station, stream_session}
use vaani_edge.App.MetricsTask.{metrics_round}
use vaani_edge.App.Tasks.Streamer.{force_all}

-- xQueueReceive: the request at the front, or `none` while the task is blocked.
pub record Inbox (os : Rtos) : Type 0 where
  pub queue_receive : os.World → Option (List ℕ) × os.World

-- The shared objects, and the arrays on the stacks of the tasks. `log` has the lines of
-- `MetricsTask`, the newest last.
pub record Firmware (F : Type 0) (a : AudioCapture) (os : Rtos) (n : Net) : Type 0 where
  pub source : a.State
  pub capture_frame : Option (List ℕ)
  pub ring : RingBuffer ℕ
  pub metrics : RuntimeMetrics
  pub window_buffer : List ℕ
  pub features : List F
  pub result : KwsResult F
  pub trigger : TriggerStateMachine F
  pub requests : List (List ℕ)
  pub os_world : os.World
  pub net_world : n.World
  pub transport : LanTransport
  pub pre_roll_buffer : List ℕ
  pub stream_frame : List ℕ
  pub log : List (List ℕ × F)

-- The next round of one of the tasks, and what it takes from outside: the answer of the ring
-- buffer's mutex and the timer; the answer of the mutex; this and the uninitialised header; the two
-- heap sizes.
pub data Turn : Type 0 where
  captures : Tick → Turn
  watches : Bool → Turn
  streams : Bool → MessageHeader → Turn
  logs : ℕ → ℕ → Turn

module _ {F : Type 0} {a : AudioCapture} {os : Rtos} {n : Net} where
  -- The objects as a task sees them.
  abbrev pub recorder : Firmware F a os n → Recorder a
  recorder s = record {
    source = s.source;
    frame = s.capture_frame;
    ring = s.ring;
    metrics = s.metrics;
  }

  abbrev pub listener : Firmware F a os n → Listener F os
  listener s = record {
    world = s.os_world;
    ring = s.ring;
    window_buffer = s.window_buffer;
    features = s.features;
    result = s.result;
    trigger = s.trigger;
    metrics = s.metrics;
    requests = s.requests;
  }

  abbrev pub station : Firmware F a os n → Station n
  station s = record {
    world = s.net_world;
    ring = s.ring;
    transport = s.transport;
    pre_roll_buffer = s.pre_roll_buffer;
    frame = s.stream_frame;
    forced = [];
  }

  -- What a task leaves.
  abbrev pub recorded : Firmware F a os n → Recorder a → Firmware F a os n
  recorded s r = record s {
    source = r.source;
    capture_frame = r.frame;
    ring = r.ring;
    metrics = r.metrics;
  }

  abbrev pub listened : Firmware F a os n → Listener F os → Firmware F a os n
  listened s l = record s {
    os_world = l.world;
    ring = l.ring;
    window_buffer = l.window_buffer;
    features = l.features;
    result = l.result;
    trigger = l.trigger;
    metrics = l.metrics;
    requests = l.requests;
  }

  abbrev pub streamed : Firmware F a os n → Station n → Firmware F a os n
  streamed s t = record s {
    net_world = t.world;
    ring = t.ring;
    transport = t.transport;
    pre_roll_buffer = t.pre_roll_buffer;
    stream_frame = t.frame;
    trigger = force_all t.forced s.trigger;
  }

module _ {F : Type 0} ⦃f : Float F⦄ {a : AudioCapture} {os : Rtos} {n : Net} (stages : Stages F)
    (inbox : Inbox os) (board : Board n) where
  -- `StreamingTask` with what `xQueueReceive` gave it.
  unfoldable pub serve :
      Bool → MessageHeader → Option (List ℕ) → Firmware F a os n → Option (Firmware F a os n)
  serve granted header none s = some s
  serve granted header (some id) s =
      stream_session board granted header id (station s) >>= λ t. some (streamed s t)

  unfoldable pub turn : Turn → Firmware F a os n → Option (Firmware F a os n)
  unfolding serve
  turn (captures tick) s = capture_round tick (recorder s) >>= λ r. some (recorded s r)
  turn (watches granted) s =
      kws_round stages granted (listener s) >>= λ (l, ms). some (listened s l)
  turn (streams granted header) s =
      let (request, w) = inbox.queue_receive s.os_world in
      serve granted header request (record s { os_world = w })
  turn (logs free_heap min_free_heap) s =
      let (line, ms) = metrics_round free_heap min_free_heap s.metrics in
      some (record s { log = s.log ++ (line ∷ []) })

  unfoldable pub run : List Turn → Firmware F a os n → Option (Firmware F a os n)
  unfolding turn
  run [] s = some s
  run (t ∷ ts) s = turn t s >>= λ u. run ts u

module _ {F : Type 0} ⦃f : Float F⦄ (a : AudioCapture) (os : Rtos) (n : Net) where
  -- The objects when the tasks have come to their loops: `AudioCaptureTask` behind
  -- `audio_capture_init`, `KwsTask` behind `SetStaticSizes`. The arrays on the stacks are not
  -- initialised.
  unfoldable pub started :
      a.State
      → os.World
      → n.World
      → KwsResult F
      → List ℕ
      → List ℕ
      → List ℕ
      → List ℕ
      → Firmware F a os n
  started source os_world net_world result capture_frame window pre_roll_buffer stream_frame =
      let l = boot os os_world window result in
      record {
        source = (a.audio_capture_init source).0;
        capture_frame = some capture_frame;
        ring = l.ring;
        metrics = set_sizes l.metrics;
        window_buffer = l.window_buffer;
        features = l.features;
        result = l.result;
        trigger = l.trigger;
        requests = l.requests;
        os_world = os_world;
        net_world = net_world;
        transport = Transport.init server_host server_port connect_timeout_ms;
        pre_roll_buffer = pre_roll_buffer;
        stream_frame = stream_frame;
        log = [];
      }
