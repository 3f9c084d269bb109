-- ===== src/App/Ends.antt =====
-- main/app_main.cpp, `StreamingTask`: where a round of its loop ends.
use vaani_edge.Base.{
  ℕ, ◌≡◌, refl, ap, ◌∙◌, Bool, inl, inr, Option, some, List, [], ◌∷◌, ◌++◌, arith, length,
  replicate, append_assoc, ltb, ℤ, Bool-cases,
}
use vaani_edge.Config.{pre_roll_samples, session_timeout_ms, sample_rate_hz, audio_channels}
use vaani_edge.Ring.Total.{get_last_total}
use vaani_edge.Trigger.{AppState, listening, session_complete}
use vaani_edge.Net.{Net, IsLawful, IsBounded}
use vaani_edge.Codec.{MessageHeader, MessageType}
use vaani_edge.Codec.Decode.{IsRoomy}
use vaani_edge.Transport.{is_ok, connect, disconnect, send_start_session, send_end_session}
use vaani_edge.Transport.Sockets.{IsIdle, connect-Connected}
use vaani_edge.Transport.Messages.{send_message_total}
use vaani_edge.Transport.Receive.{receive_result_total}
use vaani_edge.App.Session.{
  IsSteady, Ready, meanwhile-IsValid, IsHeld, IsBack, Ended, IsHeld-still, hang_up_lem,
  send_audio_chunk_total, recover_lem, stream_frames_total,
}
use vaani_edge.App.Streaming.{
  Board, Station, max_extra_frames, force, hang_up, recover, end_session, stream_live,
  send_pre_roll, start_session, stream_session,
}

module _ (n : Net) (bounded : IsBounded n) (is_open : n.World → ℤ → Bool)
    (laws : IsLawful n is_open) (board : Board n) (steady : IsSteady is_open board) where
  open n use {World}

  module _ (granted : Bool) (header : MessageHeader) (sid : List ℕ) (roomy : IsRoomy header)
      (sid_size : length sid ≡ 16) where
    -- What every later part of a session ends in.
    abbrev Ends : World → List AppState → Option (Station n) → Type 0
    Ends w before r =
        (t : Station n) × (r ≡ some t)
        × IsBack n bounded is_open laws w t
        × Ended n bounded is_open laws before t

    -- The same, with the state that was forced before `listening`.
    abbrev EndsBy : AppState → World → List AppState → Option (Station n) → Type 0
    EndsBy last w before r =
        (t : Station n) × (r ≡ some t)
        × IsBack n bounded is_open laws w t
        × (t.forced ≡ before ++ (last ∷ listening ∷ []))

    completed :
        (w : World) (before : List AppState) {r : Option (Station n)}
        → EndsBy session_complete w before r
        → Ends w before r
    completed w before (t, e, back, forced) = (t, e, back, inr forced)

    end_session-EndsBy :
        (seq : ℕ) (w : World) (before : List AppState) (s : Station n)
        → IsHeld n bounded is_open laws w before s
        → EndsBy session_complete w before (end_session board granted header sid seq s)
    unfolding end_session force send_end_session disconnect
    end_session-EndsBy seq w before s h =
        let (w1, s1, sent, kept1) =
          send_message_total n is_open laws s.transport MessageType.end_session sid seq [] 16000 1
            s.world sid_size in
        let (r, received, good) =
          receive_result_total n bounded is_open laws s.transport header (replicate 512 0)
            session_timeout_ms w1 roomy (ground arith) (ground arith) in
        let u : Station n = record s { world = r.0; ring = board.meanwhile s.ring r.0 } in
        let held : IsHeld n bounded is_open laws w before u =
          IsHeld-still n bounded is_open laws w before s u h refl (λ x. good.same_open x ∙ kept1 x)
            (record {
              ring_valid = meanwhile-IsValid is_open board steady s.ring r.0 h.ready.ring_valid;
              pre_roll_size = h.ready.pre_roll_size;
              frame_size = h.ready.frame_size;
            })
            refl in
        let (back, unforced) = hang_up_lem n bounded is_open laws w before u held in
        (
          force listening (force session_complete (hang_up u)),
          rw (sent, received) refl,
          record { idle = back.idle; same_open = back.same_open; ready = back.ready },
          append_assoc (hang_up u).forced (session_complete ∷ []) (listening ∷ [])
              ∙ ap (λ (f : List AppState). f ++ (session_complete ∷ listening ∷ [])) unforced,
        )

    -- If `StartStreaming` and `ReadStreaming`, which the repository calls but neither defines nor
    -- documents, stay inside their arrays on a valid ring buffer and a frame of its size, leave
    -- both so and give no more samples than asked for, and if meanwhile the other tasks only put
    -- samples into the ring buffer, keep it valid and open and close no socket (`IsSteady`), then
    -- over sockets that behave as documented, once the live frames of a session with an id of 16
    -- bytes have begun on a connected transport, with a valid ring buffer and buffers of their
    -- sizes, the round comes to an end inside its arrays and is given out as `session_complete`,
    -- whatever becomes of the frames, of the end of the session and of the result:
    -- `session_complete` and `listening` are forced, the transport is disconnected, the same
    -- sockets are open as before the connection, and the task is ready for the next round.
    pub stream_live-session_complete :
        (w : World) (before : List AppState) (s : Station n)
        → IsHeld n bounded is_open laws w before s
        → (t : Station n) × (stream_live board granted header sid s ≡ some t)
          × IsBack n bounded is_open laws w t
          × (t.forced ≡ before ++ (session_complete ∷ listening ∷ []))
    unfolding stream_live
    stream_live-session_complete w before s h =
        let (ring, started, valid) =
          steady.start_inside (board.meanwhile s.ring s.world)
            (meanwhile-IsValid is_open board steady s.ring s.world h.ready.ring_valid) in
        let u : Station n = record s { ring = ring } in
        let held : IsHeld n bounded is_open laws w before u =
          IsHeld-still n bounded is_open laws w before s u h refl (λ x. refl)
            (record {
              ring_valid = valid;
              pre_roll_size = h.ready.pre_roll_size;
              frame_size = h.ready.frame_size;
            })
            refl in
        let (t, next, looped, held') =
          stream_frames_total n bounded is_open laws board steady max_extra_frames sid 1 w before u
            sid_size held in
        rw (started, looped) (end_session-EndsBy next w before t held')

    give_up :
        (w : World) (before : List AppState) (s : Station n)
        → IsHeld n bounded is_open laws w before s
        → Ends w before (some (recover board (hang_up s)))
    give_up w before s h =
        let (back, unforced) = hang_up_lem n bounded is_open laws w before s h in
        let (back', ended) =
          recover_lem n bounded is_open laws board steady w before (hang_up s) back unforced in
        (recover board (hang_up s), refl, back', ended)

    send_pre_roll-Ends :
        (w : World) (before : List AppState) (s : Station n)
        → IsHeld n bounded is_open laws w before s
        → Ends w before (send_pre_roll board granted header sid s)
    unfolding send_pre_roll
    send_pre_roll-Ends w before s h =
        let (ring, buffer, count, got, valid, size, most) =
          get_last_total granted (board.meanwhile s.ring s.world) s.pre_roll_buffer pre_roll_samples
            (meanwhile-IsValid is_open board steady s.ring s.world h.ready.ring_valid) (omega arith)
            (omega (arith, h.ready.pre_roll_size)) in
        let t : Station n = record s { ring = ring; pre_roll_buffer = buffer } in
        let ready : Ready t = record {
          ring_valid = valid;
          pre_roll_size = size ∙ h.ready.pre_roll_size;
          frame_size = h.ready.frame_size;
        } in
        let held : IsHeld n bounded is_open laws w before t =
          IsHeld-still n bounded is_open laws w before s t h refl (λ x. refl) ready refl in
        elim (Bool-cases (ltb 0 count)) [
          | inl some_samples ↦
              let (v, status, sent, kept) =
                send_audio_chunk_total n bounded is_open laws t.transport sid 0 buffer count
                  sample_rate_hz audio_channels t.world sid_size
                  (omega (arith, size, h.ready.pre_roll_size)) (omega arith) in
              let u : Station n = record t { world = v } in
              let held' : IsHeld n bounded is_open laws w before u =
                IsHeld-still n bounded is_open laws w before t u held refl kept ready refl in
              elim (Bool-cases (is_ok status)) [
                | inl fine ↦
                    rw (got, some_samples, sent, fine)
                      (completed w before (stream_live-session_complete w before u held'))
                | inr failed ↦ rw (got, some_samples, sent, failed) (give_up w before u held')
              ]
          | inr none_there ↦
              rw (got, none_there)
                (completed w before (stream_live-session_complete w before t held))
        ]

    start_session-Ends :
        (w : World) (before : List AppState) (s : Station n)
        → IsHeld n bounded is_open laws w before s
        → Ends w before (start_session board granted header sid s)
    unfolding start_session send_start_session
    start_session-Ends w before s h =
        let (v, status, sent, kept) =
          send_message_total n is_open laws s.transport MessageType.start_session sid 0 []
            sample_rate_hz audio_channels s.world sid_size in
        let u : Station n = record s { world = v } in
        let held : IsHeld n bounded is_open laws w before u =
          IsHeld-still n bounded is_open laws w before s u h refl kept h.ready refl in
        elim (Bool-cases (is_ok status)) [
          | inl fine ↦ rw (sent, fine) (send_pre_roll-Ends w before u held)
          | inr failed ↦ rw (sent, failed) (give_up w before u held)
        ]

    -- If `StartStreaming` and `ReadStreaming`, which the repository calls but neither defines nor
    -- documents, stay inside their arrays on a valid ring buffer and a frame of its size, leave
    -- both so and give no more samples than asked for, and if meanwhile the other tasks only put
    -- samples into the ring buffer, keep it valid and open and close no socket (`IsSteady`), then
    -- over sockets that behave as documented, from an idle transport and with a valid ring buffer
    -- and buffers of their sizes, every round of `StreamingTask` with a session id of 16 bytes
    -- comes to an end inside its arrays, whatever the network does and whether or not the ring
    -- buffer's mutex is granted: the transport is disconnected, the same sockets are open as before
    -- the round, the task is ready for the next round, and the states that it has forced on the
    -- trigger are `error_recovery` and `listening`, or `session_complete` and `listening`.
    pub stream_session-Ended :
        (s : Station n)
        → IsIdle s.transport
        → Ready s
        → (t : Station n) × (stream_session board granted header sid s ≡ some t)
          × IsBack n bounded is_open laws s.world t
          × Ended n bounded is_open laws s.forced t
    unfolding stream_session
    stream_session-Ended s idle ready =
        let r = connect n s.transport s.world in
        let u : Station n = record s { transport = r.0; world = r.1 } in
        elim (connect-Connected n is_open laws s.transport s.world idle) [
          | inl (e, live, more) ↦
              let (t, done, back, ended) =
                start_session-Ends s.world s.forced u
                  (record { live = live; more = more; ready = ready; unforced = refl }) in
              (t, rw e done, back, ended)
          | inr (e, idle', same) ↦
              let (back, ended) =
                recover_lem n bounded is_open laws board steady s.world s.forced u
                  (record { idle = idle'; same_open = same; ready = ready }) refl in
              (recover board u, rw e refl, back, ended)
        ]
