-- ===== src/App/Sessions.antt =====
-- main/app_main.cpp, `StreamingTask`: what becomes of it over any number of sessions.
use vaani_edge.Base.{
  ℕ, ◌≡◌, refl, ap, sym, ◌∙◌, ◌⊎◌, inl, inr, some, List, [], ◌∷◌, ◌++◌, append_assoc, append-nil,
  length, ℤ, Bool,
}
use Prim.{Unit, tt}
use vaani_edge.Config.{
  pre_roll_samples, frame_size_samples, server_host, server_port, connect_timeout_ms,
}
use vaani_edge.Ring.{RingBuffer}
use vaani_edge.Ring.Valid.{IsValid}
use vaani_edge.Trigger.{AppState, listening, session_complete, error_recovery}
use vaani_edge.Net.{Net, IsLawful, IsBounded}
use vaani_edge.Codec.Decode.{IsRoomy}
use vaani_edge.Transport
use vaani_edge.Transport.Sockets.{IsIdle, SameOpen}
use vaani_edge.App.Session.{IsSteady, Ready}
use vaani_edge.App.Ends.{stream_session-Ended}
use vaani_edge.App.Streaming.{Board, Station}
use vaani_edge.App.StreamingTask.{Asked, streaming_rounds, streaming_task}

pub record IsAsked (q : Asked) : Type 0 where
  pub roomy : IsRoomy q.header
  pub session_size : length q.session_id ≡ 16
  pub ring_valid : IsValid q.ring

abbrev pub AreAsked : List Asked → Type 0
AreAsked [] = Unit
AreAsked (q ∷ qs) = IsAsked q × AreAsked qs

-- The states that sessions force, by how each of them ends.
abbrev pub forced_by : List AppState → List AppState
forced_by [] = []
forced_by (last ∷ lasts) = last ∷ listening ∷ forced_by lasts

-- One end for every session: an error or a completed session.
abbrev pub AreEnds : List AppState → List Asked → Type 0
AreEnds [] [] = Unit
AreEnds (last ∷ lasts) (q ∷ qs) =
    ((last ≡ error_recovery) ⊎ (last ≡ session_complete)) × AreEnds lasts qs
AreEnds _ _ = ⊥

module _ (n : Net) (bounded : IsBounded n) (is_open : n.World → ℤ → Bool)
    (laws : IsLawful n is_open) (board : Board n) (steady : IsSteady is_open board) where
  open n use {World}

  -- After the sessions `qs`, of which each has ended.
  abbrev pub Finished : World → List AppState → List Asked → Station n → Type 0
  Finished w before qs t =
      IsIdle t.transport
      × SameOpen n is_open laws w t.world
      × Ready t
      × ((lasts : List AppState) × AreEnds lasts qs × (t.forced ≡ before ++ forced_by lasts))

  streaming_rounds-Finished :
      (qs : List Asked) (s : Station n)
      → AreAsked qs
      → IsIdle s.transport
      → Ready s
      → (t : Station n) × (streaming_rounds board qs s ≡ some t) × Finished s.world s.forced qs t
  unfolding streaming_rounds
  streaming_rounds-Finished [] s asked idle ready =
      (s, refl, (idle, (λ x. refl), ready, ([], tt, sym (append-nil s.forced))))
  streaming_rounds-Finished (q ∷ qs) s (first, asked) idle ready =
      let u : Station n = record s { ring = q.ring } in
      let (t, done, back, ended) =
        stream_session-Ended n bounded is_open laws board steady q.granted q.header q.session_id
          first.roomy first.session_size u idle
          (record {
            ring_valid = first.ring_valid;
            pre_roll_size = ready.pre_roll_size;
            frame_size = ready.frame_size;
          }) in
      let (v, rest, (idle', open', ready', (lasts, ends, forced))) =
        streaming_rounds-Finished qs t asked back.idle back.ready in
      let joined : (last : AppState)
          → t.forced ≡ s.forced ++ (last ∷ listening ∷ [])
          → v.forced ≡ s.forced ++ forced_by (last ∷ lasts) =
        λ last e.
          forced
          ∙ ap (λ (f : List AppState). f ++ forced_by lasts) e
          ∙ append_assoc s.forced (last ∷ listening ∷ []) (forced_by lasts) in
      (
        v,
        rw done rest,
        (
          idle',
          (λ x. open' x ∙ back.same_open x),
          ready',
          elim ended [
            | inl e ↦ (error_recovery ∷ lasts, (inl refl, ends), joined error_recovery e)
            | inr e ↦ (session_complete ∷ lasts, (inr refl, ends), joined session_complete e)
          ],
        ),
      )

  -- If `StartStreaming` and `ReadStreaming`, which the repository calls but neither defines nor
  -- documents, stay inside their arrays on a valid ring buffer and a frame of its size, leave both
  -- so and give no more samples than asked for, and if meanwhile the other tasks only put samples
  -- into the ring buffer, keep it valid and open and close no socket (`IsSteady`), then over
  -- sockets that behave as documented, however many requests `StreamingTask` is given, each with a
  -- session id of 16 bytes and a valid ring buffer, with buffers of their sizes, and whatever the
  -- network does: all its rounds come to an end inside their arrays, the transport is disconnected,
  -- the same sockets are open as at its start, its buffers have their sizes, and for each request
  -- it has forced `error_recovery` or `session_complete`, and `listening` behind it.
  pub streaming_task-Finished :
      (qs : List Asked) (w : World) (ring : RingBuffer ℕ) (pre_roll_buffer frame : List ℕ)
      → AreAsked qs
      → IsValid ring
      → length pre_roll_buffer ≡ pre_roll_samples
      → length frame ≡ frame_size_samples
      → (t : Station n) × (streaming_task board qs w ring pre_roll_buffer frame ≡ some t)
        × Finished w [] qs t
  unfolding streaming_task Transport.init
  streaming_task-Finished qs w ring pre_roll_buffer frame asked v pre_roll_size frame_size =
      streaming_rounds-Finished qs
        (record {
          world = w;
          ring = ring;
          transport = Transport.init server_host server_port connect_timeout_ms;
          pre_roll_buffer = pre_roll_buffer;
          frame = frame;
          forced = [];
        })
        asked (record { no_socket = refl; not_connected = refl })
        (record { ring_valid = v; pre_roll_size = pre_roll_size; frame_size = frame_size })
