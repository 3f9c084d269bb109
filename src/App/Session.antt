-- ===== src/App/Session.antt =====
-- main/app_main.cpp, `StreamingTask`: what a round of its loop relies on and keeps.
use vaani_edge.Base.{
  ℕ, zero, suc, ◌+◌, ◌*◌, ◌^◌, ◌≤◌, ◌<◌, ◌≡◌, refl, ap, sym, subst, ◌∙◌, Bool, true, false, ◌⊎◌,
  inl, inr, some, List, [], ◌∷◌, ◌++◌, arith, length, take, append_assoc, leb, ◌==◌, u32, ℤ,
  Bool-cases,
}
use vaani_edge.Config.{
  frame_duration_ms, frame_size_samples, pre_roll_samples, sample_rate_hz, audio_channels,
}
use vaani_edge.Ring.{RingBuffer}
use vaani_edge.Ring.Valid.{IsValid}
use vaani_edge.Ring.Stream.{IsRecorded}
use vaani_edge.Trigger.{AppState, listening, session_complete, error_recovery}
use vaani_edge.Net.{Net, IsLawful, IsBounded}
use vaani_edge.Codec.{audio_chunk}
use vaani_edge.Transport.{LanTransport, TransportStatus, is_ok, sample_bytes, send_audio_chunk}
use vaani_edge.Transport.Sockets.{IsIdle, IsLive, SameOpen, OneMore, disconnect_live}
use vaani_edge.Transport.Messages.{length-sample_bytes, send_message_total}
use vaani_edge.App.Streaming.{
  Board, Station, force, hang_up, wait, recover, stream_round, stream_frames,
}

-- What the theorems on a session take for granted. Of `StartStreaming` and `ReadStreaming`, which
-- are declared, defined and documented nowhere: on a valid buffer, and a frame of its size, they stay
-- inside their arrays, leave a valid buffer and a frame of that size, and the count is at most what
-- was asked for. Of the other tasks: they only put samples into the buffer, and in a wait leave it
-- valid and open and close no socket.
pub record IsSteady {n : Net} (is_open : n.World → ℤ → Bool) (board : Board n) : Type 0 where
  pub start_inside :
      (r : RingBuffer ℕ)
      → IsValid r
      → (r' : RingBuffer ℕ) × (board.start_streaming r ≡ some r') × IsValid r'
  pub read_inside :
      (r : RingBuffer ℕ) (frame : List ℕ)
      → IsValid r
      → length frame ≡ frame_size_samples
      → (r' : RingBuffer ℕ) × (frame' : List ℕ) × (got : ℕ) × (board.read_streaming r frame
            frame_size_samples
          ≡ some (r', frame', got))
        × IsValid r'
        × (length frame' ≡ frame_size_samples)
        × (got ≤ frame_size_samples)
  pub meanwhile_records :
      (r : RingBuffer ℕ) (w : n.World)
      → IsValid r
      → (xs : List ℕ) × IsRecorded r xs (board.meanwhile r w)
  pub delay_valid :
      (ms : ℕ) (r : RingBuffer ℕ) (w : n.World) → IsValid r → IsValid (board.task_delay ms r w).0
  pub delay_open :
      (ms : ℕ) (r : RingBuffer ℕ) (w : n.World) (x : ℤ)
      → is_open (board.task_delay ms r w).1 x ≡ is_open w x

pub meanwhile-IsValid :
    {n : Net} (is_open : n.World → ℤ → Bool) (board : Board n) (steady : IsSteady is_open board)
    (r : RingBuffer ℕ) (w : n.World)
    → IsValid r
    → IsValid (board.meanwhile r w)
meanwhile-IsValid is_open board steady r w v = (steady.meanwhile_records r w v).1.valid

-- What the task relies on between two rounds.
pub record IsReady (ring : RingBuffer ℕ) (pre_roll_buffer frame : List ℕ) : Type 0 where
  pub ring_valid : IsValid ring
  pub pre_roll_size : length pre_roll_buffer ≡ pre_roll_samples
  pub frame_size : length frame ≡ frame_size_samples

abbrev pub Ready : {n : Net} → Station n → Type 0
Ready s = IsReady s.ring s.pre_roll_buffer s.frame

module _ (n : Net) (bounded : IsBounded n) (is_open : n.World → ℤ → Bool)
    (laws : IsLawful n is_open) where
  open n use {World}

  -- Inside a session: `w` is the network before it, `before` the states that had been forced.
  pub record IsHeld (w : World) (before : List AppState) (s : Station n) : Type 0 where
    pub live : IsLive s.transport
    pub more : OneMore n is_open laws s.transport w s.world
    pub ready : Ready s
    pub unforced : s.forced ≡ before

  -- After a session.
  pub record IsBack (w : World) (s : Station n) : Type 0 where
    pub idle : IsIdle s.transport
    pub same_open : SameOpen n is_open laws w s.world
    pub ready : Ready s

  -- The states that a session forces.
  abbrev pub Ended : List AppState → Station n → Type 0
  Ended before s =
      (s.forced ≡ before ++ (error_recovery ∷ listening ∷ []))
      ⊎ (s.forced ≡ before ++ (session_complete ∷ listening ∷ []))

  pub send_audio_chunk_total :
      (t : LanTransport) (sid : List ℕ) (seq : ℕ) (samples : List ℕ) (count rate channels : ℕ)
      (w : World)
      → length sid ≡ 16
      → count ≤ length samples
      → count < 2 ^ 31
      → (w' : World) × (status : TransportStatus) × (send_audio_chunk n t sid seq samples count rate
            channels w
          ≡ some (w', status))
        × ((x : ℤ) → is_open w' x ≡ is_open w x)
  unfolding send_audio_chunk
  send_audio_chunk_total t sid seq samples count rate channels w e fits small =
      let room : leb (u32 (count * 2)) (length (sample_bytes samples)) ≡ true =
        ground (arith, length-sample_bytes samples) in
      rw room (
        send_message_total n is_open laws t audio_chunk sid seq
          (take (u32 (count * 2)) (sample_bytes samples)) rate channels w e)

  -- A step of a session changes no more than the open sockets' connections and the buffers.
  pub IsHeld-still :
      (w : World) (before : List AppState) (s t : Station n)
      → IsHeld w before s
      → t.transport ≡ s.transport
      → ((x : ℤ) → is_open t.world x ≡ is_open s.world x)
      → Ready t
      → t.forced ≡ s.forced
      → IsHeld w before t
  IsHeld-still w before s t h same kept ready unforced = record {
    live = subst IsLive (sym same) h.live;
    more = rw same (h.more.0, λ x. kept x ∙ h.more.1 x);
    ready = ready;
    unforced = unforced ∙ h.unforced;
  }

  pub hang_up_lem :
      (w : World) (before : List AppState) (s : Station n)
      → IsHeld w before s
      → IsBack w (hang_up s) × ((hang_up s).forced ≡ before)
  unfolding hang_up
  hang_up_lem w before s h =
      let (idle, same) = disconnect_live n is_open laws s.transport w s.world h.live h.more in
      (record { idle = idle; same_open = same; ready = ground arith }, h.unforced)

  module _ (board : Board n) (steady : IsSteady is_open board) where
    pub recover_lem :
        (w : World) (before : List AppState) (s : Station n)
        → IsBack w s
        → s.forced ≡ before
        → IsBack w (recover board s) × Ended before (recover board s)
    unfolding recover force wait
    recover_lem w before s h unforced = (
      record {
        idle = h.idle;
        same_open = λ x. steady.delay_open _ _ _ x ∙ h.same_open x;
        ready = record {
          ring_valid = steady.delay_valid _ _ _ h.ready.ring_valid;
          pre_roll_size = h.ready.pre_roll_size;
          frame_size = h.ready.frame_size;
        };
      },
      inl (
          append_assoc s.forced (error_recovery ∷ []) (listening ∷ [])
          ∙ ap (λ (f : List AppState). f ++ (error_recovery ∷ listening ∷ [])) unforced),
    )

    round_total :
        (sid : List ℕ) (seq : ℕ) (w : World) (before : List AppState) (s : Station n)
        → length sid ≡ 16
        → IsHeld w before s
        → (t : Station n) × (next : ℕ) × (goes_on : Bool) × (stream_round board sid seq s
            ≡ some (t, next, goes_on))
          × IsHeld w before t
    unfolding stream_round wait
    round_total sid seq w before s e h =
        let before_read : RingBuffer ℕ = board.meanwhile s.ring s.world in
        let (ring, frame, got, read, valid, size, count) =
          steady.read_inside before_read s.frame
            (meanwhile-IsValid is_open board steady s.ring s.world h.ready.ring_valid)
            h.ready.frame_size in
        let t : Station n = record s { ring = ring; frame = frame } in
        let waits : (v : World)
            → ((x : ℤ) → is_open v x ≡ is_open s.world x)
            → IsHeld w before (wait board frame_duration_ms (record t { world = v })) =
          λ v kept.
            IsHeld-still w before s (wait board frame_duration_ms (record t { world = v })) h refl
              (λ x. steady.delay_open _ _ _ x ∙ kept x)
              (record {
                ring_valid = steady.delay_valid _ _ _ valid;
                pre_roll_size = h.ready.pre_roll_size;
                frame_size = size;
              })
              refl in
        elim (Bool-cases (got == 0)) [
          | inl idle ↦ (
            wait board frame_duration_ms t,
            seq,
            true,
            rw (read, idle) refl,
            waits s.world (λ x. refl),
          )
          | inr some_got ↦
              let (v, status, sent, kept) =
                send_audio_chunk_total s.transport sid seq frame got sample_rate_hz audio_channels
                  s.world e (ground arith) (ground arith) in
              elim (Bool-cases (is_ok status)) [
                | inl fine ↦ (
                  wait board frame_duration_ms (record t { world = v }),
                  u32 (seq + 1),
                  true,
                  rw (read, some_got, sent, fine) refl,
                  waits v kept,
                )
                | inr failed ↦ (
                  record t { world = v },
                  u32 (seq + 1),
                  false,
                  rw (read, some_got, sent, failed) refl,
                  IsHeld-still w before s (record t { world = v }) h refl kept
                      (record {
                        ring_valid = valid;
                        pre_roll_size = h.ready.pre_roll_size;
                        frame_size = size;
                      })
                      refl,
                )
              ]
        ]

    pub stream_frames_total :
        (rounds : ℕ) (sid : List ℕ) (seq : ℕ) (w : World) (before : List AppState) (s : Station n)
        → length sid ≡ 16
        → IsHeld w before s
        → (t : Station n) × (next : ℕ) × (stream_frames board rounds sid seq s ≡ some (t, next))
          × IsHeld w before t
    unfolding stream_frames
    stream_frames_total zero sid seq w before s e h = (s, seq, refl, h)
    stream_frames_total (suc rounds) sid seq w before s e h =
        let (t, next, goes_on, r, held) = round_total sid seq w before s e h in
        elim (Bool-cases goes_on) [
          | inl more ↦ rw (r, more) (stream_frames_total rounds sid next w before t e held)
          | inr last ↦ (t, next, rw (r, last) refl, held)
        ]
