-- ===== src/App/Heard.antt =====
-- main/app_main.cpp, `AudioCaptureTask`: what the ring buffer holds after any number of rounds.
use vaani_edge.Base.{
  true, is_zero, is_zero_lem, ℕ, ◌≡◌, ◌≢◌, refl, sym, subst, ◌∙◌, inl, inr, Option, none, some,
  ◌&&◌, List, [], ◌∷◌, ◌++◌, arith, false, Bool, ℤ, negsuc, ◌==◌, length, take, min, Bool-cases,
  if◌then◌else◌, pos, u32, sub32,
}
use vaani_edge.Config.{frame_size_samples, pre_roll_samples}
use vaani_edge.App.PreRoll.{pre_roll}
use vaani_edge.Ring.Contents.{contents, keep_last}
use vaani_edge.Ring.{RingBuffer}
use vaani_edge.Ring.Valid.{IsValid}
use vaani_edge.Ring.Push.{push-keep_last}
use vaani_edge.Ring.Trace.{refused_unchanged}
use vaani_edge.Ring.Stream.{IsRecorded, IsRecorded-keep_last, nothing-IsRecorded, push-IsRecorded}
use vaani_edge.Audio.Contract.{AudioCapture, IsCapture}
use vaani_edge.Metrics.{record_loop_period}
use vaani_edge.App.Capture.{
  Recorder, Tick, Capturing, deleted, recording, capture_round, capture_rounds, capture_task,
}

-- The first samples of an array.
abbrev pub first_samples : Option (List ℕ) → List ℕ
first_samples none = []
first_samples (some buffer) = take frame_size_samples buffer

abbrev pub or_nothing : {A : Type 0} → Option A → (A → List ℕ) → List ℕ
or_nothing none f = []
or_nothing (some x) f = f x

-- A read that has filled the frame.
abbrev pub fills_frame : ℤ → Bool
fills_frame (pos n) = n == 480
fills_frame (negsuc n) = false

-- What a source gives to reads of one frame after the other into the same array, one for each tick:
-- the whole frames of it that meet with a granted mutex, one behind the other.
abbrev pub heard : (a : AudioCapture) → List Tick → Option (List ℕ) → a.State → List ℕ
heard a [] frame s = []
heard a (tick ∷ ticks) frame s =
    or_nothing (a.audio_read frame frame_size_samples s) λ (s', frame', n).
      (if fills_frame n && tick.granted then first_samples frame' else [])
      ++ heard a ticks frame' s'

module _ (a : AudioCapture) (Ready : a.State → Type 0) (lawful : IsCapture a Ready) where
  -- What a round relies on.
  pub record IsRecorder (s : Recorder a) : Type 0 where
    pub source_ready : Ready s.source
    pub frame_there :
        (frame : List ℕ) × (s.frame ≡ some frame) × (length frame ≡ frame_size_samples)
    pub ring_valid : IsValid s.ring

  -- What a round adds, from `s` to `t`.
  pub record IsAdded (tick : Tick) (s : Recorder a) (added : List ℕ) (t : Recorder a) : Type 0 where
    pub fit : IsRecorder t
    pub stored :
        (rest : List ℕ) (r : RingBuffer ℕ)
        → IsRecorded t.ring rest r
        → IsRecorded s.ring (added ++ rest) r
    pub taken :
        (ticks : List Tick)
        → heard a (tick ∷ ticks) s.frame s.source ≡ added ++ heard a ticks t.frame t.source

  pub round_heard :
      (tick : Tick) (s : Recorder a)
      → IsRecorder s
      → (t : Recorder a) × (added : List ℕ) × (capture_round tick s ≡ some t)
        × IsAdded tick s added t
  unfolding capture_round
  round_heard tick s h =
      let (frame, there, size) = h.frame_there in
      let (source, filled, n, read, ready, same, few) =
        lawful.read_inside s.source frame frame_size_samples h.source_ready (omega (arith, size)) in
      let after : RingBuffer ℕ → Recorder a = λ ring. record {
        source = source;
        frame = some filled;
        ring = ring;
        metrics = record_loop_period (sub32 (u32 tick.t1) (u32 tick.t0)) s.metrics;
      } in
      let fine : (ring : RingBuffer ℕ) → IsValid ring → IsRecorder (after ring) = λ ring v. record {
        source_ready = ready;
        frame_there = (filled, refl, same ∙ size);
        ring_valid = v;
      } in
      elim (Bool-cases (fills_frame n)) [
        | inr short ↦ (
          after s.ring,
          [],
          rw (there, read, short) refl,
          record {
            fit = fine s.ring h.ring_valid;
            stored = λ rest r done. done;
            taken = λ ticks. rw (there, read, short) refl;
          },
        )
        | inl whole ↦ elim (Bool-cases tick.granted) [
          | inr refused ↦
              let (unpushed, _, _) =
                refused_unchanged tick.granted filled frame_size_samples s.ring (inl refused) in
              (
                after s.ring,
                [],
                rw (there, read, whole, unpushed) refl,
                record {
                  fit = fine s.ring h.ring_valid;
                  stored = λ rest r done. done;
                  taken = λ ticks. rw (there, read, whole, refused) refl;
                },
              )
          | inl granted ↦
              let (ring, stored, pushed) =
                push-keep_last s.ring filled frame_size_samples h.ring_valid (omega arith)
                  (omega arith) (omega (arith, same, size)) in
              (
                after ring,
                take frame_size_samples filled,
                rw (there, read, whole, granted, stored) refl,
                record {
                  fit = fine ring pushed.valid;
                  stored = λ rest r done. push-IsRecorded s.ring ring r _ rest pushed done;
                  taken = λ ticks. rw (there, read, whole, granted) refl;
                },
              )
        ]
      ]

  rounds_heard :
      (ticks : List Tick) (s : Recorder a)
      → IsRecorder s
      → (t : Recorder a) × (capture_rounds ticks s ≡ some t)
        × IsRecorded s.ring (heard a ticks s.frame s.source) t.ring
  unfolding capture_rounds
  rounds_heard [] s h = (s, refl, nothing-IsRecorded s.ring h.ring_valid)
  rounds_heard (tick ∷ ticks) s h =
      let (t, added, first, done) = round_heard tick s h in
      let (u, rest, later) = rounds_heard ticks t done.fit in
      (
        u,
        rw first rest,
        subst (λ (xs : List ℕ). IsRecorded s.ring xs u.ring) (sym (done.taken ticks))
            (done.stored (heard a ticks t.frame t.source) u.ring later),
      )

  -- What the task comes to from `s` on.
  abbrev pub Captured : List Tick → Recorder a → Capturing a → Type 0
  Captured ticks s (deleted t) =
      ((a.audio_capture_init s.source).1 ≢ pos 0) × (t.ring ≡ s.ring) × (t.metrics ≡ s.metrics)
  Captured ticks s (recording t) =
      ((a.audio_capture_init s.source).1 ≡ pos 0)
      × IsRecorded s.ring (heard a ticks s.frame (a.audio_capture_init s.source).0) t.ring
      × (pre_roll true t.ring
          ≡ keep_last (min pre_roll_samples s.ring.capacity)
              (contents s.ring ++ heard a ticks s.frame (a.audio_capture_init s.source).0))

  -- Over any source with the contract of audio_capture.h, from a valid ring buffer and a frame of
  -- 480 samples, however many rounds the task runs and whichever mutex attempts time out: it stays
  -- inside its arrays; if the initialisation fails it ends and has recorded nothing; otherwise the
  -- ring buffer is valid, has kept its capacity, and holds what it held and then the whole frames
  -- that the source gave to the rounds with a granted mutex, of all the newest samples that fit;
  -- and the pre-roll that `StreamingTask` then gets is the newest 12800 of all these, or as many
  -- as fit.
  pub capture_task-Captured :
      (ticks : List Tick) (s : Recorder a) (frame : List ℕ)
      → s.frame ≡ some frame
      → length frame ≡ frame_size_samples
      → IsValid s.ring
      → (c : Capturing a) × (capture_task ticks s ≡ some c) × Captured ticks s c
  unfolding capture_task
  capture_task-Captured ticks s frame there size v =
      let u : Recorder a = record s { source = (a.audio_capture_init s.source).0 } in
      elim (Bool-cases (is_zero (a.audio_capture_init s.source).1)) [
        | inr failed ↦ (deleted u, rw failed refl, (λ e. ground arith, refl, refl))
        | inl fine ↦
            let zero_status : (a.audio_capture_init s.source).1 ≡ pos 0 = is_zero_lem _ fine in
            let (t, done, heard) = rounds_heard ticks u (record {
              source_ready = lawful.init_ready s.source zero_status;
              frame_there = (frame, there, size);
              ring_valid = v;
            }) in
            (
              recording t,
              rw (fine, done) refl,
              (zero_status, heard, IsRecorded-keep_last pre_roll_samples s.ring t.ring _ heard),
            )
      ]
