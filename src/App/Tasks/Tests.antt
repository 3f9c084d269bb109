-- ===== src/App/Tasks/Tests.antt =====
-- The two tasks on a trigger that one window sets off.
use vaani_edge.Base.{
  ℕ, ◌≤◌, ◌≡◌, ◌≢◌, refl, Bool, true, false, Option, none, some, List, [], ◌∷◌, ◌++◌, arith,
}
use vaani_edge.Float.{hundredths}
use vaani_edge.Trigger.{TriggerStateMachine, AppState, listening, streaming, force_state, update}
use vaani_edge.Trigger.Invariant.{IsValid}
use vaani_edge.Net.Loopback.{is_open, loopback, loopback-IsLawful, loopback-IsBounded}
use vaani_edge.App.Keyword.{Listener, kws_round}
use vaani_edge.App.Streaming.{Station, stream_session}
use vaani_edge.App.KeywordTests.{
  os, os-IsQueue, sure, sure-IsScored, sure-IsComputed, listener, listener-Fit,
}
use vaani_edge.App.Tests.{board, board-IsSteady, station, station-IsReady, blank, session}
use vaani_edge.App.Tasks.{
  looking, refused, waiting, System, Turn, watcher, streamer, start, judged, watch_step, receive,
  stream_step, step, run,
}
use vaani_edge.App.Tasks.Requested.{outstanding, outstanding-run, run-IsSound, start-IsSound}
use vaani_edge.App.Tasks.Stuck.{IsStuck, overtaken, overtaken-IsStuck}
use vaani_edge.App.Tasks.Priority.{
  settle, streamers, step_prioritised, run_prioritised, returns_to_listening,
}
use vaani_edge.App.Tasks.Watcher.{watchers, view, kws_round-watchers}
use vaani_edge.App.Tasks.Streamer.{Serves, stream_session-streamer}

abbrev ready : TriggerStateMachine ℕ
ready = listener.trigger

ready-IsValid : IsValid ready
ready-IsValid = ground arith

-- A detection, its request, and a session.
abbrev turns : List (Turn ℕ)
turns =
    watcher none []
    ∷ watcher (some 99) []
    ∷ watcher none (7 ∷ [])
    ∷ streamer true
    ∷ watcher none []
    ∷ streamer true
    ∷ []

run-turns : (run turns (start ready)).trigger.state ≡ AppState.session_complete
unfolding run step watch_step stream_step receive judged update force_state
run-turns = refl

outstanding-run_example :
    IsValid (run turns (start ready)).trigger
    × (outstanding (run turns (start ready)) ≤ 1)
    × ((run turns (start ready)).watch ≢ refused)
    × ((run turns (start ready)).watch ≡ looking
        → (run turns (start ready)).trigger.state ≡ listening
        → outstanding (run turns (start ready)) ≡ 0)
outstanding-run_example = outstanding-run turns ready ready-IsValid refl

-- The first two turns detect the keyword.
abbrev at_detection : System ℕ
at_detection = run (watcher none [] ∷ watcher (some 99) [] ∷ []) (start ready)

overtaken-IsStuck_example :
    IsStuck (run (overtaken (7 ∷ []) true) at_detection)
    × (run turns (run (overtaken (7 ∷ []) true) at_detection)
        ≡ run (overtaken (7 ∷ []) true) at_detection)
unfolding run step watch_step judged update
overtaken-IsStuck_example =
    overtaken-IsStuck (7 ∷ []) true turns at_detection
      (run-IsSound (watcher none [] ∷ watcher (some 99) [] ∷ []) (start ready)
        (start-IsSound ready ready-IsValid refl))
      refl

returns_to_listening_example :
    ((run_prioritised
        (settle [] looking ++ streamers false true true)
        (run_prioritised turns (start ready))).trigger.state
      ≡ listening)
    × (outstanding (
          run_prioritised
            (settle [] looking ++ streamers false true true)
            (run_prioritised turns (start ready)))
        ≡ 0)
    × ((run_prioritised
          (settle [] looking ++ streamers false true true)
          (run_prioritised turns (start ready))).watch
        ≡ looking)
unfolding run_prioritised step_prioritised step watch_step stream_step receive judged update
    force_state
returns_to_listening_example = returns_to_listening turns ready [] false true true refl

kws_round-watchers_example :
    (t : Listener ℕ os) × (ms : ℕ) × (kws_round sure true listener ≡ some (t, ms))
    × ((rounds : List (Option ℕ × List ℕ)) × (run
            (watchers rounds)
            (view os (λ w. w.queue) os-IsQueue sure waiting listener)
          ≡ view os (λ w. w.queue) os-IsQueue sure waiting t))
kws_round-watchers_example =
    kws_round-watchers os (λ w. w.queue) os-IsQueue sure true waiting listener sure-IsScored
      sure-IsComputed listener-Fit

stream_session-streamer_example :
    (t : Station loopback) × (forced : List AppState) × (delivered : Bool) × (stream_session board
        true blank session station
      ≡ some t)
    × (t.forced ≡ (streaming ∷ []) ++ forced)
    × Serves ready session [] looking delivered forced
stream_session-streamer_example =
    stream_session-streamer ready session [] looking loopback loopback-IsBounded is_open
      loopback-IsLawful board board-IsSteady true blank session station
      (record { magic = refl; session = refl }) refl
      (record { no_socket = refl; not_connected = refl }) station-IsReady
