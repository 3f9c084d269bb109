-- ===== src/App/Streaming.antt =====
-- main/app_main.cpp, `StreamingTask`: one round of its loop, from a request taken off the queue to
-- the next wait. Its log lines are left out.
use vaani_edge.Base.{
  ℕ, zero, suc, ◌+◌, ◌/◌, Bool, true, false, Option, some, List, [], ◌∷◌, ◌++◌, ltb, ◌==◌,
  if◌then◌else◌, ◌>>=◌, u32, replicate,
}
use vaani_edge.Config.{
  sample_rate_hz, audio_channels, frame_duration_ms, frame_size_samples, pre_roll_samples,
  max_stream_duration_ms, session_timeout_ms,
}
use vaani_edge.Ring
use vaani_edge.Ring.{RingBuffer}
use vaani_edge.Trigger.{AppState, listening, session_complete, error_recovery}
use vaani_edge.Net.{Net}
use vaani_edge.Codec.{MessageHeader}
use vaani_edge.Transport.{
  LanTransport, is_ok, connect, disconnect, send_start_session, send_audio_chunk, send_end_session,
  receive_result,
}

-- `RingBuffer::StartStreaming` and `RingBuffer::ReadStreaming`, which the task calls and
-- ring_buffer.h does not declare: `none` where one would leave an array. And what the other tasks do
-- to the ring buffer between two accesses of this one, while it is in a call of the transport or
-- preempted, and to the ring buffer and the network while it is in `vTaskDelay`.
pub record Board (n : Net) : Type 0 where
  pub start_streaming : RingBuffer ℕ → Option (RingBuffer ℕ)
  pub read_streaming : RingBuffer ℕ → List ℕ → ℕ → Option (RingBuffer ℕ × List ℕ × ℕ)
  pub meanwhile : RingBuffer ℕ → n.World → RingBuffer ℕ
  pub task_delay : ℕ → RingBuffer ℕ → n.World → RingBuffer ℕ × n.World

-- The task's own variables and the objects that it shares. `forced` lists the calls of
-- `g_trigger_sm.ForceState`, the newest last.
pub record Station (n : Net) : Type 0 where
  pub world : n.World
  pub ring : RingBuffer ℕ
  pub transport : LanTransport
  pub pre_roll_buffer : List ℕ
  pub frame : List ℕ
  pub forced : List AppState

abbrev pub max_extra_frames : ℕ
max_extra_frames = max_stream_duration_ms / frame_duration_ms

module _ {n : Net} where
  unfoldable pub force : AppState → Station n → Station n
  force state s = record s { forced = s.forced ++ (state ∷ []) }

  unfoldable pub hang_up : Station n → Station n
  hang_up s = let (t, w) = disconnect n s.transport s.world in record s { transport = t; world = w }

module _ {n : Net} (board : Board n) where
  unfoldable pub wait : ℕ → Station n → Station n
  wait ms s = let (r, w) = board.task_delay ms s.ring s.world in record s { ring = r; world = w }

  -- The way out of a session that could not be started.
  unfoldable pub recover : Station n → Station n
  unfolding force wait
  recover s = force listening (wait 500 (force error_recovery s))

  -- One round of the loop over the live frames: the next sequence number, and whether the loop goes
  -- on.
  unfoldable pub stream_round : List ℕ → ℕ → Station n → Option (Station n × ℕ × Bool)
  unfolding wait
  stream_round session_id sequence_number s =
      board.read_streaming (board.meanwhile s.ring s.world) s.frame frame_size_samples
      >>= λ (ring, frame, got).
          let t = record s { ring = ring; frame = frame } in
          if got == 0
          then some (wait frame_duration_ms t, sequence_number, true)
          else (send_audio_chunk n t.transport session_id sequence_number frame got sample_rate_hz
                audio_channels t.world
              >>= λ (w, status).
                  let u = record t { world = w } in
                  let next = u32 (sequence_number + 1) in
                  some (
                    if is_ok status
                    then (wait frame_duration_ms u, next, true)
                    else (u, next, false)))

  -- The loop, with the number of rounds left.
  unfoldable pub stream_frames : ℕ → List ℕ → ℕ → Station n → Option (Station n × ℕ)
  unfolding stream_round
  stream_frames zero session_id sequence_number s = some (s, sequence_number)
  stream_frames (suc rounds) session_id sequence_number s =
      stream_round session_id sequence_number s >>= λ (t, next, goes_on). elim goes_on [
        | true ↦ stream_frames rounds session_id next t
        | false ↦ some (t, next)
      ]

  module _ (granted : Bool) (header : MessageHeader) (session_id : List ℕ) where
    -- From `SendEndSession` on.
    unfoldable pub end_session : ℕ → Station n → Option (Station n)
    unfolding force hang_up
    end_session sequence_number s =
        send_end_session n s.transport session_id sequence_number s.world >>= λ (w, _).
        receive_result n s.transport header (replicate 512 0) 512 session_timeout_ms w
        >>= λ (w', transcript, result_status).
            let t = record s { world = w'; ring = board.meanwhile s.ring w' } in
            some (force listening (force session_complete (hang_up t)))

    -- From `StartStreaming` on.
    unfoldable pub stream_live : Station n → Option (Station n)
    unfolding stream_frames end_session
    stream_live s = board.start_streaming (board.meanwhile s.ring s.world) >>= λ ring.
        stream_frames max_extra_frames session_id 1 (record s { ring = ring })
        >>= λ (t, sequence_number). end_session sequence_number t

    -- From the `GetLast` of the pre-roll on.
    unfoldable pub send_pre_roll : Station n → Option (Station n)
    unfolding recover hang_up stream_live
    send_pre_roll s =
        Ring.get_last granted (some s.pre_roll_buffer) pre_roll_samples
          (board.meanwhile s.ring s.world)
        >>= λ (ring, buffer, count).
            let t = record s { ring = ring; pre_roll_buffer = buffer } in
            if ltb 0 count
            then (send_audio_chunk n t.transport session_id 0 buffer count sample_rate_hz
                  audio_channels t.world
                >>= λ (w, status).
                    let u = record t { world = w } in
                    if is_ok status then stream_live u else some (recover (hang_up u)))
            else stream_live t

    -- From `SendStartSession` on.
    unfoldable pub start_session : Station n → Option (Station n)
    unfolding recover hang_up send_pre_roll
    start_session s =
        send_start_session n s.transport session_id sample_rate_hz audio_channels s.world
        >>= λ (w, status).
            let t = record s { world = w } in
            if is_ok status then send_pre_roll t else some (recover (hang_up t))

    unfoldable pub stream_session : Station n → Option (Station n)
    unfolding recover start_session
    stream_session s =
        let (t, w, status) = connect n s.transport s.world in
        let u = record s { transport = t; world = w } in
        if is_ok status then start_session u else some (recover u)
