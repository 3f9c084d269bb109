-- ===== src/App/Firmware/Watched.antt =====
-- main/app_main.cpp: a round of `AudioCaptureTask` or of `KwsTask`, and what the other tasks rely
-- on.
use vaani_edge.Base.{
  ℕ, ◌≡◌, refl, ap, sym, ◌∙◌, inl, inr, Bool, true, false, Option, some, List, [], ◌∷◌, ℤ, subst,
}
use vaani_edge.Float.{Float}
use vaani_edge.Trigger.{listening, streaming, update, force_state}
use vaani_edge.Net.{Net, IsLawful, IsBounded}
use vaani_edge.Audio.Contract.{AudioCapture, IsCapture}
use vaani_edge.App.Capture.{Tick}
use vaani_edge.App.Heard.{round_heard}
use vaani_edge.App.Keyword.{Rtos, Stages, Listener}
use vaani_edge.App.Outcome.{IsComputed, IsScored, Fit, Outcome, kept, missed, sent, full}
use vaani_edge.App.Round.{kws_round_total}
use vaani_edge.App.Requests.{update_miss}
use vaani_edge.App.Boot.{IsConfigured, scored, forced, touch-IsConfigured}
use vaani_edge.App.Session.{IsSteady}
use vaani_edge.App.Streaming.{Board}
use vaani_edge.App.Tasks.Watcher.{IsQueue, Ticks-queue}
use vaani_edge.App.Firmware.{
  Firmware, Inbox, captures, watches, recorder, listener, recorded, listened, turn,
}
use vaani_edge.App.Firmware.Sound.{IsInbox, Agreed, IsSound}

module _ {F : Type 0} ⦃f : Float F⦄ (stages : Stages F) {os : Rtos}
    (queue_of : os.World → List (List ℕ)) (queue : IsQueue os queue_of) where
  -- What an outcome of a round of `KwsTask` leaves, from a listening trigger and an empty queue on.
  Outcome-Agreed :
      (s t : Listener F os)
      → queue_of s.world ≡ []
      → s.trigger.state ≡ listening
      → IsConfigured s.trigger
      → Outcome stages s.trigger s.requests s.world t
      → IsConfigured t.trigger × Agreed t.trigger.state (queue_of t.world)
  unfolding force_state
  Outcome-Agreed s t none_there on c (kept e b ticks) =
      subst (λ m. IsConfigured m × Agreed m.state (queue_of t.world)) (sym e)
        (c, inl (Ticks-queue os queue_of queue ticks ∙ none_there, on))
  Outcome-Agreed s t none_there on c (missed p r miss e b ticks) =
      subst (λ m. IsConfigured m × Agreed m.state (queue_of t.world)) (sym e)
        (
          touch-IsConfigured (scored p) s.trigger c,
          inl (Ticks-queue os queue_of queue ticks ∙ none_there, update_miss p s.trigger on miss),
        )
  Outcome-Agreed s t none_there on c (sent p id v r hit size ticks taken w e b) =
      let before : queue_of v ≡ [] = Ticks-queue os queue_of queue ticks ∙ none_there in
      let after : queue_of t.world ≡ id ∷ [] =
        ap queue_of w ∙ (queue.send_queue id v ∙ rw before refl) in
      subst (λ m. IsConfigured m × Agreed m.state (queue_of t.world)) (sym e)
        (
          touch-IsConfigured (forced streaming) (update p s.trigger)
              (touch-IsConfigured (scored p) s.trigger c),
          inr (id, after, size, refl),
        )
  Outcome-Agreed s t none_there on c (full p id v r hit ticks none_left w e b) =
      let before : queue_of v ≡ [] = Ticks-queue os queue_of queue ticks ∙ none_there in
      absurd (there_is_room (sym (queue.send_taken id v ∙ rw before refl) ∙ none_left))
    where
      there_is_room : ¬ (true ≡ false)
      there_is_room e = cc

module _ {F : Type 0} ⦃f : Float F⦄ {a : AudioCapture} {os : Rtos} {n : Net}
    (Working : a.State → Type 0) (queue_of : os.World → List (List ℕ))
    (is_open : n.World → ℤ → Bool) (laws : IsLawful n is_open) (lawful : IsCapture a Working)
    (queue : IsQueue os queue_of) (bounded : IsBounded n) (stages : Stages F)
    (scores : IsScored stages) (computes : IsComputed stages) (inbox : Inbox os)
    (gives : IsInbox os queue_of inbox) (board : Board n) (steady : IsSteady is_open board)
    (w : n.World) where
  abbrev pub Sound : Firmware F a os n → Type 0
  Sound = IsSound Working queue_of is_open laws w

  -- What a round makes of `s`.
  abbrev pub Keeps : Option (Firmware F a os n) → Type 0
  Keeps r = (t : Firmware F a os n) × (r ≡ some t) × Sound t

  pub captures-IsSound :
      (tick : Tick) (s : Firmware F a os n)
      → Sound s
      → Keeps (turn stages inbox board (captures tick) s)
  unfolding turn
  captures-IsSound tick s h =
      let (r, added, done, fine) = round_heard a Working lawful tick (recorder s) (record {
        source_ready = h.source_works;
        frame_there = h.frame_there;
        ring_valid = h.fit.ring_valid;
      }) in
      (
        recorded s r,
        rw done refl,
        record {
          source_works = fine.fit.source_ready;
          frame_there = fine.fit.frame_there;
          fit = record {
            ring_valid = fine.fit.ring_valid;
            window_size = h.fit.window_size;
            features_size = h.fit.features_size;
          };
          ready = record {
            ring_valid = fine.fit.ring_valid;
            pre_roll_size = h.ready.pre_roll_size;
            frame_size = h.ready.frame_size;
          };
          idle = h.idle;
          same_open = h.same_open;
          configured = h.configured;
          agreed = h.agreed;
        },
      )

  -- The parts of `Sound` that `KwsTask` may change.
  listened-IsSound :
      (s : Firmware F a os n) (l : Listener F os)
      → Sound s
      → Fit l
      → IsConfigured l.trigger
      → Agreed l.trigger.state (queue_of l.world)
      → Sound (listened s l)
  listened-IsSound s l h fit configured agreed = record {
    source_works = h.source_works;
    frame_there = h.frame_there;
    fit = record {
      ring_valid = fit.ring_valid;
      window_size = fit.window_size;
      features_size = fit.features_size;
    };
    ready = record {
      ring_valid = fit.ring_valid;
      pre_roll_size = h.ready.pre_roll_size;
      frame_size = h.ready.frame_size;
    };
    idle = h.idle;
    same_open = h.same_open;
    configured = configured;
    agreed = agreed;
  }

  pub watches-IsSound :
      (granted : Bool) (s : Firmware F a os n)
      → Sound s
      → Keeps (turn stages inbox board (watches granted) s)
  unfolding turn
  watches-IsSound granted s h =
      let (l, ms, done, fit, result) =
        kws_round_total stages scores computes granted (listener s) h.fit in
      let (configured, agreed) : IsConfigured l.trigger
          × Agreed l.trigger.state (queue_of l.world) =
        elim result [
          | inl same ↦
              subst (λ u. IsConfigured u.trigger × Agreed u.trigger.state (queue_of u.world))
                (sym same) (h.configured, h.agreed)
          | inr (on, outcome) ↦ elim h.agreed [
            | inl (none_there, _) ↦
                Outcome-Agreed stages queue_of queue (listener s) l none_there on h.configured
                  outcome
            | inr (_, _, _, busy) ↦ absurd (not_both (sym on ∙ busy))
          ]
        ] in
      (listened s l, rw done refl, listened-IsSound s l h fit configured agreed)
    where
      not_both : ¬ (listening ≡ streaming)
      not_both e = cc
