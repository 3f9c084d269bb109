-- ===== src/App/SessionsTests.antt =====
-- The streaming task on the loopback network, with two requests.
use vaani_edge.Base.{ℕ, ◌≡◌, refl, true, false, some, List, [], ◌∷◌, replicate, length-replicate}
use Prim.{tt}
use vaani_edge.Config.{pre_roll_samples, frame_size_samples}
use vaani_edge.Net.Loopback.{quiet, is_open, loopback, loopback-IsLawful, loopback-IsBounded}
use vaani_edge.App.Streaming.{Station}
use vaani_edge.App.StreamingTask.{Asked, streaming_task}
use vaani_edge.App.Sessions.{IsAsked, Finished, streaming_task-Finished}
use vaani_edge.App.Tests.{board, board-IsSteady, station, station-IsReady, blank, session}

abbrev asked : Asked
asked = record { session_id = session; granted = true; header = blank; ring = station.ring }

abbrev requests : List Asked
requests = asked ∷ record asked { granted = false } ∷ []

asked-IsAsked : IsAsked asked
asked-IsAsked = record {
  roomy = record { magic = refl; session = refl };
  session_size = refl;
  ring_valid = station-IsReady.ring_valid;
}

refused-IsAsked : IsAsked (record asked { granted = false })
refused-IsAsked = record {
  roomy = record { magic = refl; session = refl };
  session_size = refl;
  ring_valid = station-IsReady.ring_valid;
}

streaming_task-Finished_example :
    (t : Station loopback) × (streaming_task board requests
        (quiet [])
        station.ring
        (replicate pre_roll_samples 0)
        (replicate frame_size_samples 0)
      ≡ some t)
    × Finished loopback loopback-IsBounded is_open loopback-IsLawful board board-IsSteady
        (quiet [])
        []
        requests
        t
streaming_task-Finished_example =
    streaming_task-Finished loopback loopback-IsBounded is_open loopback-IsLawful board
      board-IsSteady requests (quiet []) station.ring (replicate pre_roll_samples 0)
      (replicate frame_size_samples 0) (asked-IsAsked, (refused-IsAsked, tt))
      station-IsReady.ring_valid (length-replicate {A = ℕ} pre_roll_samples 0)
      (length-replicate {A = ℕ} frame_size_samples 0)
