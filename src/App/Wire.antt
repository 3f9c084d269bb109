-- ===== src/App/Wire.antt =====
-- main/app_main.cpp, `StreamingTask`: what its loop over the live frames puts on the wire of a
-- network on which no `send` fails.
use vaani_edge.Base.{
  ℕ, zero, suc, ◌+◌, ◌*◌, ◌^◌, ◌≤◌, ◌<◌, ◌≡◌, refl, ap, sym, ◌∙◌, Bool, true, inl, inr, some, List,
  [], ◌∷◌, ◌++◌, ℤ, arith, length, take, append_assoc, append-nil, length-append, length-take, ◌==◌,
  Bool-cases,
}
use Prim.{Unit, tt}
use vaani_edge.Config.{frame_duration_ms, frame_size_samples, sample_rate_hz, audio_channels}
use vaani_edge.Ring.{RingBuffer}
use vaani_edge.Net.{Net, IsReliable}
use vaani_edge.Codec.{audio_chunk}
use vaani_edge.Transport.{sample_bytes}
use vaani_edge.Transport.Reliable.{frame_bytes, send_audio_chunk-frame_bytes}
use vaani_edge.App.Streaming.{Board, Station, wait, stream_round, stream_frames}
use vaani_edge.App.Session.{IsSteady, Ready, meanwhile-IsValid}

-- The tasks that run while this one waits send nothing.
pub record IsQuiet {n : Net} (wire : n.World → List ℕ) (board : Board n) : Type 0 where
  pub delay_wire :
      (ms : ℕ) (r : RingBuffer ℕ) (w : n.World) → wire (board.task_delay ms r w).1 ≡ wire w

-- Audio messages with consecutive sequence numbers, of which the first is `seq`.
abbrev pub numbered : List ℕ → ℕ → List (List ℕ) → List ℕ
numbered sid seq [] = []
numbered sid seq (chunk ∷ chunks) =
    frame_bytes audio_chunk sid seq chunk sample_rate_hz audio_channels
    ++ numbered sid (suc seq) chunks

-- No chunk is longer than a frame of the ring buffer's samples.
abbrev pub AreSmall : List (List ℕ) → Type 0
AreSmall [] = Unit
AreSmall (chunk ∷ chunks) = (length chunk ≤ frame_size_samples * 2) × AreSmall chunks

AreSmall-append : (xs ys : List (List ℕ)) → AreSmall xs → AreSmall ys → AreSmall (xs ++ ys)
AreSmall-append [] ys small more = more
AreSmall-append (x ∷ xs) ys (first, small) more = (first, AreSmall-append xs ys small more)

numbered-append :
    (sid : List ℕ) (seq : ℕ) (xs ys : List (List ℕ))
    → numbered sid seq (xs ++ ys) ≡ numbered sid seq xs ++ numbered sid (seq + length xs) ys
numbered-append sid seq [] ys = ap (λ (k : ℕ). numbered sid k ys) (omega arith)
numbered-append sid seq (x ∷ xs) ys =
    let next : seq + suc (length xs) ≡ suc seq + length xs = omega arith in
    rw (numbered-append sid (suc seq) xs ys, next)
      (sym (
        append_assoc (frame_bytes audio_chunk sid seq x sample_rate_hz audio_channels)
          (numbered sid (suc seq) xs) (numbered sid (suc seq + length xs) ys)))

module _ (n : Net) (wire : n.World → List ℕ) (reliable : IsReliable n wire) (board : Board n)
    (is_open : n.World → ℤ → Bool) (steady : IsSteady is_open board) (quiet : IsQuiet wire board)
    (sid : List ℕ) (sid_size : length sid ≡ 16) where
  open n use {World}

  -- Inside a session.
  pub record IsSending (s : Station n) : Type 0 where
    pub connected : s.transport.connected ≡ true
    pub ready : Ready s

  -- From `s` to `t`, with the messages that carry `chunks` on the wire.
  pub record IsSent (seq : ℕ) (s : Station n) (chunks : List (List ℕ)) (t : Station n)
      : Type 0 where
    pub sending : IsSending t
    pub sized : AreSmall chunks
    pub added : wire t.world ≡ wire s.world ++ numbered sid seq chunks
    pub unforced : t.forced ≡ s.forced

  round_wire :
      (seq : ℕ) (s : Station n)
      → seq + 1 < 2 ^ 32
      → IsSending s
      → (t : Station n) × (chunks : List (List ℕ)) × (stream_round board sid seq s
          ≡ some (t, seq + length chunks, true))
        × (length chunks ≤ 1)
        × IsSent seq s chunks t
  unfolding stream_round wait
  round_wire seq s small h =
      let before_read : RingBuffer ℕ = board.meanwhile s.ring s.world in
      let (ring, frame, got, read, valid, size, count) =
        steady.read_inside before_read s.frame
          (meanwhile-IsValid is_open board steady s.ring s.world h.ready.ring_valid)
          h.ready.frame_size in
      let t : Station n = record s { ring = ring; frame = frame } in
      let waits : (v : World) → IsSending (wait board frame_duration_ms (record t { world = v })) =
        λ v. record {
          connected = h.connected;
          ready = record {
            ring_valid = steady.delay_valid _ _ _ valid;
            pre_roll_size = h.ready.pre_roll_size;
            frame_size = size;
          };
        } in
      elim (Bool-cases (got == 0)) [
        | inl idle ↦ (
          wait board frame_duration_ms t,
          [],
          rw (read, idle)
              (ap (λ (k : ℕ). some (wait board frame_duration_ms t, k, true)) (omega arith)),
          omega arith,
          record {
            sending = waits s.world;
            sized = tt;
            added = quiet.delay_wire _ _ _ ∙ sym (append-nil (wire s.world));
            unforced = refl;
          },
        )
        | inr some_got ↦
            let (v, sent, added) =
              send_audio_chunk-frame_bytes n wire reliable s.transport sid seq frame got
                sample_rate_hz audio_channels s.world h.connected sid_size (ground arith)
                (ground arith) in
            let chunk : List ℕ = take (got * 2) (sample_bytes frame) in
            (
              wait board frame_duration_ms (record t { world = v }),
              chunk ∷ [],
              rw (read, some_got, sent)
                  (ap
                    (λ (k : ℕ).
                      some (wait board frame_duration_ms (record t { world = v }), k, true))
                    (omega arith)),
              omega arith,
              record {
                sending = waits v;
                sized = (omega (arith, length-take (got * 2) (sample_bytes frame)), tt);
                added =
                    quiet.delay_wire _ _ _
                    ∙ added
                    ∙ ap (λ (bs : List ℕ). wire s.world ++ bs)
                        (sym (
                          append-nil
                            (frame_bytes audio_chunk sid seq chunk sample_rate_hz audio_channels)));
                unforced = refl;
              },
            )
      ]

  -- The loop over the live frames: what it sends is numbered in turn, and every round goes on.
  pub stream_frames_wire :
      (rounds seq : ℕ) (s : Station n)
      → seq + rounds < 2 ^ 32
      → IsSending s
      → (t : Station n) × (chunks : List (List ℕ)) × (stream_frames board rounds sid seq s
          ≡ some (t, seq + length chunks))
        × (length chunks ≤ rounds)
        × IsSent seq s chunks t
  unfolding stream_frames
  stream_frames_wire zero seq s small h = (
    s,
    [],
    ap (λ (k : ℕ). some (s, k)) (omega arith),
    omega arith,
    record { sending = h; sized = tt; added = sym (append-nil (wire s.world)); unforced = refl },
  )
  stream_frames_wire (suc rounds) seq s small h =
      let (t, xs, r, one, first) = round_wire seq s (omega arith) h in
      let (u, ys, rest, few, then_sent) =
        stream_frames_wire rounds (seq + length xs) t (omega arith) first.sending in
      let both : length (xs ++ ys) ≡ length xs + length ys = length-append xs ys in
      (
        u,
        xs ++ ys,
        rw r (rest ∙ ap (λ (k : ℕ). some (u, k)) (omega arith)),
        omega arith,
        record {
          sending = then_sent.sending;
          sized = AreSmall-append xs ys first.sized then_sent.sized;
          added = rw (numbered-append sid seq xs ys) (
              then_sent.added
              ∙ ap (λ (bs : List ℕ). bs ++ numbered sid (seq + length xs) ys) first.added
              ∙ append_assoc (wire s.world) (numbered sid seq xs)
                  (numbered sid (seq + length xs) ys));
          unforced = then_sent.unforced ∙ first.unforced;
        },
      )
