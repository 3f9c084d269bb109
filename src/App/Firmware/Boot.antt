-- ===== src/App/Firmware/Boot.antt =====
-- main/app_main.cpp: the firmware from its start on, with the mock audio source.
use vaani_edge.Base.{ℕ, ◌≡◌, refl, true, Bool, some, List, [], length, ℤ, inl}
use vaani_edge.Float.{Float}
use vaani_edge.Config.{frame_size_samples, pre_roll_samples}
use vaani_edge.Net.{Net, IsLawful, IsBounded}
use vaani_edge.Codec.{MessageHeader}
use vaani_edge.Codec.Decode.{IsRoomy}
use vaani_edge.Transport
use vaani_edge.Audio
use vaani_edge.Audio.{AudioSource, g_audio_source}
use vaani_edge.Audio.Contract.{mock, mock-IsCapture}
use vaani_edge.Kws.{KwsResult}
use vaani_edge.App.Keyword.{Rtos, Stages, required_samples}
use vaani_edge.App.Outcome.{IsComputed, IsScored}
use vaani_edge.App.Boot.{boot-Fit}
use vaani_edge.App.Session.{IsSteady}
use vaani_edge.App.Streaming.{Board}
use vaani_edge.App.Tasks.Watcher.{IsQueue}
use vaani_edge.App.Firmware.{Firmware, Inbox, Turn, streams, turn, run, started}
use vaani_edge.App.Firmware.Sound.{IsInbox, IsSound}
use vaani_edge.App.Firmware.Turns.{AreTurns, Served, streams-IsSound, run-IsSound}

-- The source has been initialised.
abbrev pub IsOn : AudioSource → Type 0
IsOn s = s.initialized ≡ true

module _ {F : Type 0} ⦃f : Float F⦄ {os : Rtos} {n : Net} (queue_of : os.World → List (List ℕ))
    (is_open : n.World → ℤ → Bool) (laws : IsLawful n is_open) (queue : IsQueue os queue_of)
    (bounded : IsBounded n) (stages : Stages F) (scores : IsScored stages)
    (computes : IsComputed stages) (inbox : Inbox os) (gives : IsInbox os queue_of inbox)
    (board : Board n) (steady : IsSteady is_open board) where
  pub started-IsSound :
      (os_world : os.World) (w : n.World) (result : KwsResult F)
      (frame window pre_roll_buffer stream_frame : List ℕ)
      → queue_of os_world ≡ []
      → length frame ≡ frame_size_samples
      → length window ≡ required_samples
      → length pre_roll_buffer ≡ pre_roll_samples
      → length stream_frame ≡ frame_size_samples
      → IsSound IsOn queue_of is_open laws w (
          started
            (mock F)
            os
            n
            g_audio_source
            os_world
            w
            result
            frame
            window
            pre_roll_buffer
            stream_frame)
  unfolding started Transport.init Audio.audio_capture_init
  started-IsSound os_world w result frame window pre_roll_buffer stream_frame none_there size
        window_size pre_roll_size stream_size =
      let (fit, configured, on) = boot-Fit os os_world window result window_size in
      record {
        source_works = refl;
        frame_there = (frame, refl, size);
        fit = record {
          ring_valid = fit.ring_valid;
          window_size = fit.window_size;
          features_size = fit.features_size;
        };
        ready = record {
          ring_valid = fit.ring_valid;
          pre_roll_size = pre_roll_size;
          frame_size = stream_size;
        };
        idle = record { no_socket = refl; not_connected = refl };
        same_open = λ x. refl;
        configured = configured;
        agreed = inl (none_there, on);
      }

  -- If `StartStreaming` and `ReadStreaming`, which the repository calls but neither defines nor
  -- documents, stay inside their arrays on a valid ring buffer and a frame of its size, leave both
  -- so and give no more samples than asked for, and if meanwhile the other tasks only put samples
  -- into the ring buffer, keep it valid and open and close no socket (`IsSteady`): the firmware
  -- from its start on, with arrays of their sizes, with the mock audio source, any extractor that
  -- stays inside its arrays and any inference that scores every class whenever it reports success,
  -- over a request queue of two places that is empty at first and sockets that behave as
  -- documented. Whatever rounds of the four tasks follow each other, and whichever mutex attempts
  -- time out, all come to an end inside their arrays, with the ring buffer and the trigger valid,
  -- the transport idle, the sockets open as at the start, and either a listening trigger and no
  -- request or a streaming one and one request; one round of `StreamingTask` more leaves a
  -- listening trigger and no request.
  pub run-started :
      (os_world : os.World) (w : n.World) (result : KwsResult F)
      (frame window pre_roll_buffer stream_frame : List ℕ) (ts : List Turn) (granted : Bool)
      (header : MessageHeader)
      → queue_of os_world ≡ []
      → length frame ≡ frame_size_samples
      → length window ≡ required_samples
      → length pre_roll_buffer ≡ pre_roll_samples
      → length stream_frame ≡ frame_size_samples
      → AreTurns ts
      → IsRoomy header
      → (t : Firmware F (mock F) os n) × (run stages inbox board ts (
            started
              (mock F)
              os
              n
              g_audio_source
              os_world
              w
              result
              frame
              window
              pre_roll_buffer
              stream_frame)
          ≡ some t)
        × IsSound IsOn queue_of is_open laws w t
        × Served IsOn queue_of is_open laws
            (mock-IsCapture F)
            queue
            bounded
            stages
            scores
            computes
            inbox
            gives
            board
            steady
            w
            (turn stages inbox board (streams granted header) t)
  run-started os_world w result frame window pre_roll_buffer stream_frame ts granted header
        none_there size window_size pre_roll_size stream_size ok roomy =
      let sound =
        started-IsSound os_world w result frame window pre_roll_buffer stream_frame none_there size
          window_size pre_roll_size stream_size in
      let (t, done, after) =
        run-IsSound IsOn queue_of is_open laws (mock-IsCapture F) queue bounded stages scores
          computes inbox gives board steady w ts _ ok sound in
      (
        t,
        done,
        after,
        streams-IsSound IsOn queue_of is_open laws (mock-IsCapture F) queue bounded stages scores
            computes inbox gives board steady w granted header t roomy after,
      )
