-- ===== src/App/Tasks/Streamer.antt =====
-- `StreamingTask` in the interleaved system is the detailed round of App/Streaming, seen by the
-- states that it forces on the trigger.
use vaani_edge.Base.{
  ℕ, ◌≡◌, refl, inl, inr, Bool, true, false, some, List, [], ◌∷◌, ◌++◌, length, ℤ,
}
use vaani_edge.Float.{Float}
use vaani_edge.Trigger.{
  TriggerStateMachine, AppState, listening, session_complete, error_recovery, force_state,
}
use vaani_edge.Net.{Net, IsLawful, IsBounded}
use vaani_edge.Codec.{MessageHeader}
use vaani_edge.Codec.Decode.{IsRoomy}
use vaani_edge.Transport.Sockets.{IsIdle}
use vaani_edge.App.Streaming.{Board, Station, stream_session}
use vaani_edge.App.Session.{IsSteady, Ready}
use vaani_edge.App.Ends.{stream_session-Ended}
use vaani_edge.App.Tasks.{Watch, waiting, streamer, receive, stream_step, step, run}

-- `ForceState` with one state after the other.
unfoldable pub force_all :
    {F : Type 0} → List AppState → TriggerStateMachine F → TriggerStateMachine F
force_all [] m = m
force_all (state ∷ states) m = force_all states (force_state state m)

module _ {F : Type 0} ⦃f : Float F⦄ (m : TriggerStateMachine F) (id : List ℕ) (rest : List (List ℕ))
    (w : Watch) where
  -- Three turns, from a request in the queue to the next wait for one.
  abbrev pub Serves : Bool → List AppState → Type 0
  Serves delivered forced =
      run (streamer delivered ∷ streamer delivered ∷ streamer delivered ∷ [])
        (record { trigger = m; queue = id ∷ rest; watch = w; stream = waiting })
      ≡ record { trigger = force_all forced m; queue = rest; watch = w; stream = waiting }

  Serves-lost : Serves false (error_recovery ∷ listening ∷ [])
  unfolding run step stream_step receive force_all
  Serves-lost = refl

  Serves-delivered : Serves true (session_complete ∷ listening ∷ [])
  unfolding run step stream_step receive force_all
  Serves-delivered = refl

  -- If `StartStreaming` and `ReadStreaming`, which the repository calls but neither defines nor
  -- documents, stay inside their arrays on a valid ring buffer and a frame of its size, leave both
  -- so and give no more samples than asked for, and if meanwhile the other tasks only put samples
  -- into the ring buffer, keep it valid and open and close no socket (`IsSteady`), then over
  -- sockets that behave as documented, from an idle transport and with a valid ring buffer and
  -- buffers of their sizes, a round of `StreamingTask` with a session id of 16 bytes comes to an
  -- end and forces a list of states on the trigger, and three turns of the task in the interleaved
  -- system, from a request in the queue on, force the same, whatever the trigger, the queue behind
  -- the request and the place of `KwsTask`.
  pub stream_session-streamer :
      (n : Net) (bounded : IsBounded n) (is_open : n.World → ℤ → Bool) (laws : IsLawful n is_open)
      (board : Board n) (steady : IsSteady is_open board) (granted : Bool) (header : MessageHeader)
      (sid : List ℕ) (s : Station n)
      → IsRoomy header
      → length sid ≡ 16
      → IsIdle s.transport
      → Ready s
      → (t : Station n) × (forced : List AppState) × (delivered : Bool) × (stream_session board
            granted header sid s
          ≡ some t)
        × (t.forced ≡ s.forced ++ forced)
        × Serves delivered forced
  stream_session-streamer n bounded is_open laws board steady granted header sid s roomy size idle
        ready =
      let (t, done, back, ended) =
        stream_session-Ended n bounded is_open laws board steady granted header sid roomy size s
          idle ready in
      elim ended [
        | inl lost ↦ (t, error_recovery ∷ listening ∷ [], false, done, lost, Serves-lost)
        | inr complete ↦
            (t, session_complete ∷ listening ∷ [], true, done, complete, Serves-delivered)
      ]
