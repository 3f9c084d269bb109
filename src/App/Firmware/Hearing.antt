-- ===== src/App/Firmware/Hearing.antt =====
-- main/app_main.cpp: what the ring buffer holds after rounds of the tasks other than
-- `StreamingTask`.
use vaani_edge.Base.{
  ℕ, ◌≡◌, refl, ◌∙◌, subst, Bool, some, List, [], ◌∷◌, ◌++◌, ℤ, of_bind, append-nil,
}
use vaani_edge.Float.{Float}
use vaani_edge.Ring.Stream.{IsRecorded, nothing-IsRecorded, IsRecorded-++}
use vaani_edge.Net.{Net, IsLawful, IsBounded}
use vaani_edge.Audio.Contract.{AudioCapture, IsCapture}
use vaani_edge.App.Capture.{Tick}
use vaani_edge.App.Heard.{heard, round_heard}
use vaani_edge.App.Keyword.{Rtos, Stages, kws_round}
use vaani_edge.App.Kept.{kws_round-IsRecorded}
use vaani_edge.App.Outcome.{IsComputed, IsScored}
use vaani_edge.App.MetricsTask.{metrics_round}
use vaani_edge.App.Session.{IsSteady}
use vaani_edge.App.Streaming.{Board}
use vaani_edge.App.Tasks.Watcher.{IsQueue}
use vaani_edge.App.Firmware.{
  Firmware, Inbox, Turn, captures, watches, streams, logs, recorder, listener, recorded, listened,
  turn, run,
}
use vaani_edge.App.Firmware.Sound.{IsInbox}
use vaani_edge.App.Firmware.Watched.{Sound}
use vaani_edge.App.Firmware.Turns.{AreTurns, turn_sound}

-- A round of another task than `StreamingTask`.
abbrev pub IsHearing : Turn → Type 0
IsHearing (streams granted header) = ⊥
IsHearing _ = Unit

abbrev pub AreHearing : List Turn → Type 0
AreHearing [] = Unit
AreHearing (t ∷ ts) = IsHearing t × AreHearing ts

-- The rounds of `AudioCaptureTask` among the turns.
abbrev pub ticks_of : List Turn → List Tick
ticks_of [] = []
ticks_of (captures tick ∷ ts) = tick ∷ ticks_of ts
ticks_of (_ ∷ ts) = ticks_of ts

module _ {F : Type 0} ⦃f : Float F⦄ {a : AudioCapture} {os : Rtos} {n : Net} where
  -- What a turn adds to the ring buffer, from `s` to `u`.
  record IsHeard (t : Turn) (s : Firmware F a os n) (added : List ℕ) (u : Firmware F a os n)
      : Type 0 where
    stored : IsRecorded s.ring added u.ring
    goes_on :
        (ts : List Turn)
        → heard a (ticks_of (t ∷ ts)) s.capture_frame s.source
          ≡ added ++ heard a (ticks_of ts) u.capture_frame u.source
    same_world : u.net_world ≡ s.net_world
    same_transport : u.transport ≡ s.transport

module _ {F : Type 0} ⦃f : Float F⦄ {a : AudioCapture} {os : Rtos} {n : Net}
    (Working : a.State → Type 0) (queue_of : os.World → List (List ℕ))
    (is_open : n.World → ℤ → Bool) (laws : IsLawful n is_open) (lawful : IsCapture a Working)
    (queue : IsQueue os queue_of) (bounded : IsBounded n) (stages : Stages F)
    (scores : IsScored stages) (computes : IsComputed stages) (inbox : Inbox os)
    (gives : IsInbox os queue_of inbox) (board : Board n) (steady : IsSteady is_open board)
    (w : n.World) where
  abbrev Fine : Firmware F a os n → Type 0
  Fine =
      Sound Working queue_of is_open laws lawful queue bounded stages scores computes inbox gives
        board steady w

  turn-IsHeard :
      (t : Turn) (s u : Firmware F a os n)
      → IsHearing t
      → Fine s
      → turn stages inbox board t s ≡ some u
      → (added : List ℕ) × IsHeard t s added u
  unfolding turn
  turn-IsHeard (captures tick) s u ok h e =
      let (r, added, done, more) = round_heard a Working lawful tick (recorder s) (record {
        source_ready = h.source_works;
        frame_there = h.frame_there;
        ring_valid = h.fit.ring_valid;
      }) in
      let left = rw done at e in
      let same : recorded s r ≡ u = cc in
      (
        added,
        subst (IsHeard (captures tick) s added) same (record {
          stored =
              subst (λ xs. IsRecorded s.ring xs r.ring) (append-nil added)
                (more.stored [] r.ring (nothing-IsRecorded r.ring more.fit.ring_valid));
          goes_on = λ ts. more.taken (ticks_of ts);
          same_world = refl;
          same_transport = refl;
        }),
      )
  turn-IsHeard (watches granted) s u ok h e =
      let ((l, ms), done, left) = of_bind (kws_round stages granted (listener s)) _ _ e in
      let same : listened s l ≡ u = cc in
      (
        [],
        subst (IsHeard (watches granted) s []) same (record {
          stored = kws_round-IsRecorded stages granted (listener s) l ms h.fit done;
          goes_on = λ ts. refl;
          same_world = refl;
          same_transport = refl;
        }),
      )
  turn-IsHeard (streams granted header) s u ok h e = elim ok [ ]
  turn-IsHeard (logs free_heap min_free_heap) s u ok h e =
      let line : List ℕ × F = (metrics_round free_heap min_free_heap s.metrics).0 in
      let same : record s { log = s.log ++ (line ∷ []) } ≡ u = cc in
      (
        [],
        subst (IsHeard (logs free_heap min_free_heap) s []) same (record {
          stored = nothing-IsRecorded s.ring h.fit.ring_valid;
          goes_on = λ ts. refl;
          same_world = refl;
          same_transport = refl;
        }),
      )

  -- Rounds of the tasks other than `StreamingTask`, from sound objects on.
  pub run-heard :
      (ts : List Turn) (s : Firmware F a os n)
      → AreTurns ts
      → AreHearing ts
      → Fine s
      → (u : Firmware F a os n) × (run stages inbox board ts s ≡ some u)
        × Fine u
        × IsRecorded s.ring (heard a (ticks_of ts) s.capture_frame s.source) u.ring
        × (u.net_world ≡ s.net_world)
        × (u.transport ≡ s.transport)
  unfolding run
  run-heard [] s ok other h = (s, refl, h, nothing-IsRecorded s.ring h.fit.ring_valid, refl, refl)
  run-heard (t ∷ ts) s ok other h =
      let (v, done, sound) =
        turn_sound Working queue_of is_open laws lawful queue bounded stages scores computes inbox
          gives board steady w t s ok.0 h in
      let (added, first) = turn-IsHeard t s v other.0 h done in
      let (u, rest, sound', later, world, transport) = run-heard ts v ok.1 other.1 sound in
      (
        u,
        rw done rest,
        sound',
        rw (first.goes_on ts) (IsRecorded-++ s.ring v.ring u.ring added _ first.stored later),
        world ∙ first.same_world,
        transport ∙ first.same_transport,
      )
