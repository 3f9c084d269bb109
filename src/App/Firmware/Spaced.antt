-- ===== src/App/Firmware/Spaced.antt =====
-- main/app_main.cpp: how many rounds of `KwsTask` there are between two requests, whatever the other
-- tasks do.
use vaani_edge.Base.{
  ℕ, ◌+◌, ◌-◌, ◌≤◌, ◌≡◌, refl, ap, sym, ◌∙◌, subst, Bool, true, false, ◌⊎◌, inl, inr, Option, none,
  some, List, [], ◌∷◌, ◌++◌, ℤ, arith, of_bind,
}
use vaani_edge.Float.{Float}
use vaani_edge.Trigger.{
  TriggerStateMachine, AppState, listening, streaming, update, count_window, force_state,
}
use vaani_edge.Trigger.Invariant.{IsValid}
use vaani_edge.Net.{Net, IsLawful, IsBounded}
use vaani_edge.Audio.Contract.{AudioCapture, IsCapture}
use vaani_edge.App.Capture.{capture_round}
use vaani_edge.App.Keyword.{Rtos, Stages, Listener, is_detected}
use vaani_edge.App.Outcome.{IsComputed, IsScored, Outcome, kept, missed, sent, full}
use vaani_edge.App.Round.{kws_round_total}
use vaani_edge.App.Boot.{IsConfigured}
use vaani_edge.Codec.{MessageHeader}
use vaani_edge.App.MetricsTask.{metrics_round}
use vaani_edge.App.Session.{IsSteady}
use vaani_edge.App.Streaming.{Board, stream_session}
use vaani_edge.App.Tasks.Watcher.{IsQueue}
use vaani_edge.App.Tasks.Streamer.{force_all}
use vaani_edge.App.Firmware.{
  Firmware, Inbox, Turn, captures, watches, streams, logs, recorder, listener, station, recorded,
  listened, streamed, serve, turn, run,
}
use vaani_edge.App.Firmware.Sound.{IsInbox}
use vaani_edge.App.Firmware.Watched.{Sound, watches-IsSound}
use vaani_edge.App.Firmware.Turns.{AreTurns, turn_sound, run-IsSound}

-- The rounds of `KwsTask` among the turns.
abbrev pub watches_in : List Turn → ℕ
watches_in [] = 0
watches_in (watches granted ∷ ts) = watches_in ts + 1
watches_in (_ ∷ ts) = watches_in ts

watches_in-∷ :
    (t : Turn) (ts : List Turn) → watches_in (t ∷ ts) ≡ watches_in ts + watches_in (t ∷ [])
watches_in-∷ (captures tick) ts = omega arith
watches_in-∷ (watches granted) ts = refl
watches_in-∷ (streams granted header) ts = omega arith
watches_in-∷ (logs free_heap min_free_heap) ts = omega arith

module _ {F : Type 0} ⦃f : Float F⦄ where
  -- How many scores a detection takes at least.
  abbrev need : TriggerStateMachine F → ℕ
  need m = m.cooldown_remaining + (m.consecutive_positive_windows - m.consecutive_count)

  need-force_state : (a : AppState) (m : TriggerStateMachine F) → need m ≤ need (force_state a m)
  unfolding force_state
  need-force_state a m = ground arith

  need-force_all :
      (states : List AppState) (m : TriggerStateMachine F) → need m ≤ need (force_all states m)
  unfolding force_all
  need-force_all [] m = omega arith
  need-force_all (a ∷ states) m =
      omega (arith, need-force_state a m, need-force_all states (force_state a m))

  need_miss :
      (p : F) (m : TriggerStateMachine F)
      → IsValid m
      → is_detected (update p m).state ≡ false
      → need m ≤ need (update p m) + 1
  unfolding update count_window
  need_miss p m v e = ground arith

  need_hit :
      (p : F) (m : TriggerStateMachine F)
      → IsValid m
      → m.state ≡ listening
      → is_detected (update p m).state ≡ true
      → (need m ≤ 1) × (need (update p m) ≡ m.cooldown_windows + m.consecutive_positive_windows)
  unfolding update count_window
  need_hit p m v on e = ground arith

  -- What a round of `KwsTask` on a listening trigger `m` comes to.
  Outcome-need :
      {os : Rtos} (stages : Stages F) (m : TriggerStateMachine F) (requests : List (List ℕ))
      (w : os.World) (t : Listener F os)
      → IsConfigured m
      → m.state ≡ listening
      → Outcome stages m requests w t
      → ((t.requests ≡ requests) × (need m ≤ need t.trigger + 1))
        ⊎ ((need m ≤ 1) × (78 ≤ need t.trigger))
  Outcome-need stages m requests w t c on (kept e b ticks) = inl (b, rw e (omega arith))
  Outcome-need stages m requests w t c on (missed p r miss e b ticks) =
      inl (b, rw e (need_miss p m c.valid miss))
  Outcome-need stages m requests w t c on (sent p id v r hit size ticks taken x e b) =
      let (last, again) = need_hit p m c.valid on hit in
      inr (
        last,
        rw e (omega (arith, again, need-force_state streaming (update p m), c.windows, c.cooldown)),
      )
  Outcome-need stages m requests w t c on (full p id v r hit ticks none_left x e b) =
      inl (b, omega (arith, (need_hit p m c.valid on hit).0))

module _ {F : Type 0} ⦃f : Float F⦄ {a : AudioCapture} {os : Rtos} {n : Net}
    (Working : a.State → Type 0) (queue_of : os.World → List (List ℕ))
    (is_open : n.World → ℤ → Bool) (laws : IsLawful n is_open) (lawful : IsCapture a Working)
    (queue : IsQueue os queue_of) (bounded : IsBounded n) (stages : Stages F)
    (scores : IsScored stages) (computes : IsComputed stages) (inbox : Inbox os)
    (gives : IsInbox os queue_of inbox) (board : Board n) (steady : IsSteady is_open board)
    (w : n.World) where
  abbrev Fine : Firmware F a os n → Type 0
  Fine =
      Sound Working queue_of is_open laws lawful queue bounded stages scores computes inbox gives
        board steady w

  -- From `s` to `u` with `k` rounds of `KwsTask`: no request, or one that `k` scores are enough for.
  abbrev Spaced : ℕ → Firmware F a os n → Firmware F a os n → Type 0
  Spaced k s u =
      ((u.requests ≡ s.requests) × (need s.trigger ≤ need u.trigger + k))
      ⊎ ((need s.trigger ≤ k) × (78 ≤ need u.trigger))

  serve-Spaced :
      (granted : Bool) (header : MessageHeader) (r : Option (List ℕ)) (s u : Firmware F a os n)
      → serve stages inbox board granted header r s ≡ some u
      → Spaced 0 s u
  unfolding serve
  serve-Spaced granted header none s u e =
      let same : s ≡ u = cc in subst (Spaced 0 s) same (inl (refl, omega arith))
  serve-Spaced granted header (some id) s u e =
      let (t, done, left) = of_bind (stream_session board granted header id (station s)) _ _ e in
      let same : streamed s t ≡ u = cc in
      subst (Spaced 0 s) same (inl (refl, omega (arith, need-force_all t.forced s.trigger)))

  turn-Spaced :
      (t : Turn) (s u : Firmware F a os n)
      → Fine s
      → turn stages inbox board t s ≡ some u
      → Spaced (watches_in (t ∷ [])) s u
  unfolding turn
  turn-Spaced (captures tick) s u h e =
      let (r, done, left) = of_bind (capture_round tick (recorder s)) _ _ e in
      let same : recorded s r ≡ u = cc in subst (Spaced 0 s) same (inl (refl, omega arith))
  turn-Spaced (watches granted) s u h e =
      let (l, ms, done, fit, result) =
        kws_round_total stages scores computes granted (listener s) h.fit in
      let left = rw done at e in
      let same : listened s l ≡ u = cc in
      subst (Spaced 1 s) same (elim result [
        | inl still ↦ inl (ap (λ x. x.requests) still, rw still (omega arith))
        | inr (on, outcome) ↦
            Outcome-need stages s.trigger s.requests s.os_world l h.configured on outcome
      ])
  turn-Spaced (streams granted header) s u h e =
      let (request, x) = inbox.queue_receive s.os_world in
      serve-Spaced granted header request (record s { os_world = x }) u e
  turn-Spaced (logs free_heap min_free_heap) s u h e =
      let line : List ℕ × F = (metrics_round free_heap min_free_heap s.metrics).0 in
      let same : record s { log = s.log ++ (line ∷ []) } ≡ u = cc in
      subst (Spaced 0 s) same (inl (refl, omega arith))

  run_need :
      (ts : List Turn) (s t : Firmware F a os n)
      → AreTurns ts
      → Fine s
      → run stages inbox board ts s ≡ some t
      → (t.requests ≡ s.requests) ⊎ (need s.trigger ≤ watches_in ts)
  unfolding run
  run_need [] s t ok h e = let same : s ≡ t = cc in inl (ap (λ x. x.requests) (sym same))
  run_need (x ∷ ts) s t ok h e =
      let (u, first, rest) = of_bind (turn stages inbox board x s) _ _ e in
      let (v, done, sound) =
        turn_sound Working queue_of is_open laws lawful queue bounded stages scores computes inbox
          gives board steady w x s ok.0 h in
      let same : v ≡ u = cc in
      let later = run_need ts u t ok.1 (subst Fine same sound) rest in
      elim (turn-Spaced x s u h first) [
        | inr (few, again) ↦ inr (omega (arith, watches_in-∷ x ts))
        | inl (none_sent, more) ↦ elim later [
          | inl none_later ↦ inl (none_later ∙ none_sent)
          | inr enough ↦ inr (omega (arith, watches_in-∷ x ts))
        ]
      ]

  -- If `StartStreaming` and `ReadStreaming`, which the repository calls but neither defines nor
  -- documents, stay inside their arrays on a valid ring buffer and a frame of its size, leave both
  -- so and give no more samples than asked for, and if meanwhile the other tasks only put samples
  -- into the ring buffer, keep it valid and open and close no socket (`IsSteady`), with sources,
  -- stages, queue and sockets that keep their contracts: from sound objects on, whatever rounds of
  -- the four tasks follow each other behind a round of `KwsTask`, all come to an end inside their
  -- arrays, and if that round has sent a request, and another has been sent since, there have been
  -- at least 78 further rounds of `KwsTask`.
  pub run-watches_in :
      (s0 : Firmware F a os n) (granted : Bool) (ts : List Turn)
      → Fine s0
      → AreTurns ts
      → (s t : Firmware F a os n) × (turn stages inbox board (watches granted) s0 ≡ some s)
        × (run stages inbox board ts s ≡ some t)
        × ((s.requests ≡ s0.requests) ⊎ (t.requests ≡ s.requests) ⊎ (78 ≤ watches_in ts))
  run-watches_in s0 granted ts h ok =
      let (s, first, sound) =
        watches-IsSound Working queue_of is_open laws lawful queue bounded stages scores computes
          inbox gives board steady w granted s0 h in
      let (t, rest, sound') =
        run-IsSound Working queue_of is_open laws lawful queue bounded stages scores computes inbox
          gives board steady w ts s ok sound in
      (
        s,
        t,
        first,
        rest,
        elim (turn-Spaced (watches granted) s0 s h first) [
          | inl (none_sent, more) ↦ inl none_sent
          | inr (few, again) ↦ elim (run_need ts s t ok sound rest) [
            | inl none_later ↦ inr (inl none_later)
            | inr enough ↦ inr (inr (omega arith))
          ]
        ],
      )
