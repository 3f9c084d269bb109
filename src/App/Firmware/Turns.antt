-- ===== src/App/Firmware/Turns.antt =====
-- main/app_main.cpp: the rounds of every task, and what the other tasks rely on.
use vaani_edge.Base.{
  ℕ, ◌≡◌, refl, sym, ◌∙◌, inl, inr, Bool, Option, some, List, [], ◌∷◌, length, ℤ, subst,
}
use Prim.{Unit}
use vaani_edge.Float.{Float}
use vaani_edge.Trigger.{
  TriggerStateMachine, AppState, listening, session_complete, error_recovery, force_state,
}
use vaani_edge.Net.{Net, IsLawful, IsBounded}
use vaani_edge.Codec.{MessageHeader}
use vaani_edge.Codec.Decode.{IsRoomy}
use vaani_edge.Audio.Contract.{AudioCapture, IsCapture}
use vaani_edge.App.Keyword.{Rtos, Stages}
use vaani_edge.App.Outcome.{IsComputed, IsScored}
use vaani_edge.App.Boot.{IsConfigured, forced, touch-IsConfigured}
use vaani_edge.App.Session.{IsSteady}
use vaani_edge.App.Streaming.{Board}
use vaani_edge.App.Ends.{stream_session-Ended}
use vaani_edge.App.Tasks.Watcher.{IsQueue}
use vaani_edge.App.Tasks.Streamer.{force_all}
use vaani_edge.App.Firmware.{
  Firmware, Inbox, Turn, captures, watches, streams, logs, station, streamed, serve, turn, run,
}
use vaani_edge.App.Firmware.Sound.{IsInbox}
use vaani_edge.App.Firmware.Watched.{Sound, Keeps, captures-IsSound, watches-IsSound}

-- The arrays of the header that a round of `StreamingTask` finds on its stack.
abbrev pub IsTurn : Turn → Type 0
IsTurn (streams granted header) = IsRoomy header
IsTurn _ = Unit

abbrev pub AreTurns : List Turn → Type 0
AreTurns [] = Unit
AreTurns (t ∷ ts) = IsTurn t × AreTurns ts

module _ {F : Type 0} ⦃f : Float F⦄ where
  forced-listening :
      (m : TriggerStateMachine F) (s : AppState)
      → IsConfigured m
      → IsConfigured (force_all (s ∷ listening ∷ []) m)
        × ((force_all (s ∷ listening ∷ []) m).state ≡ listening)
  unfolding force_all force_state
  forced-listening m s c = (
    touch-IsConfigured (forced listening) (force_state s m) (touch-IsConfigured (forced s) m c),
    refl,
  )

module _ {F : Type 0} ⦃f : Float F⦄ {a : AudioCapture} {os : Rtos} {n : Net}
    (Working : a.State → Type 0) (queue_of : os.World → List (List ℕ))
    (is_open : n.World → ℤ → Bool) (laws : IsLawful n is_open) (lawful : IsCapture a Working)
    (queue : IsQueue os queue_of) (bounded : IsBounded n) (stages : Stages F)
    (scores : IsScored stages) (computes : IsComputed stages) (inbox : Inbox os)
    (gives : IsInbox os queue_of inbox) (board : Board n) (steady : IsSteady is_open board)
    (w : n.World) where
  abbrev Fine : Firmware F a os n → Type 0
  Fine =
      Sound Working queue_of is_open laws lawful queue bounded stages scores computes inbox gives
        board steady w

  -- A served request: the queue is empty, the trigger listens, and the network is as before.
  abbrev pub Served : Option (Firmware F a os n) → Type 0
  Served r =
      (t : Firmware F a os n) × (r ≡ some t)
      × Fine t
      × (t.trigger.state ≡ listening)
      × (queue_of t.os_world ≡ [])

  serve_sound :
      (granted : Bool) (header : MessageHeader) (id : List ℕ) (v : os.World) (s : Firmware F a os n)
      → IsRoomy header
      → length id ≡ 16
      → queue_of v ≡ []
      → Fine s
      → Served (serve stages inbox board granted header (some id) (record s { os_world = v }))
  unfolding serve
  serve_sound granted header id v s roomy size none_left h =
      let (t, done, back, ended) =
        stream_session-Ended n bounded is_open laws board steady granted header id roomy size
          (station s) h.idle h.ready in
      let (configured, on) : IsConfigured (force_all t.forced s.trigger)
          × ((force_all t.forced s.trigger).state ≡ listening) =
        elim ended [
          | inl e ↦
              subst
                (λ l.
                  IsConfigured (force_all l s.trigger)
                  × ((force_all l s.trigger).state ≡ listening))
                (sym e) (forced-listening s.trigger error_recovery h.configured)
          | inr e ↦
              subst
                (λ l.
                  IsConfigured (force_all l s.trigger)
                  × ((force_all l s.trigger).state ≡ listening))
                (sym e) (forced-listening s.trigger session_complete h.configured)
        ] in
      (
        streamed (record s { os_world = v }) t,
        rw done refl,
        record {
          source_works = h.source_works;
          frame_there = h.frame_there;
          fit = record {
            ring_valid = back.ready.ring_valid;
            window_size = h.fit.window_size;
            features_size = h.fit.features_size;
          };
          ready = record {
            ring_valid = back.ready.ring_valid;
            pre_roll_size = back.ready.pre_roll_size;
            frame_size = back.ready.frame_size;
          };
          idle = back.idle;
          same_open = λ x. back.same_open x ∙ h.same_open x;
          configured = configured;
          agreed = inl (none_left, on);
        },
        on,
        none_left,
      )

  -- A round of `StreamingTask` leaves no request, and a listening trigger.
  pub streams-IsSound :
      (granted : Bool) (header : MessageHeader) (s : Firmware F a os n)
      → IsRoomy header
      → Fine s
      → Served (turn stages inbox board (streams granted header) s)
  unfolding turn serve
  streams-IsSound granted header s roomy h = elim h.agreed [
    | inl (none_there, on) ↦
        (s, rw (gives.receive_blocked s.os_world none_there) refl, h, on, none_there)
    | inr (id, one, size, busy) ↦
        let (front, left) = gives.receive_front s.os_world id [] one in
        rw front
          (serve_sound granted header id (inbox.queue_receive s.os_world).1 s roomy size left h)
  ]

  pub turn_sound :
      (t : Turn) (s : Firmware F a os n)
      → IsTurn t
      → Fine s
      → Keeps Working queue_of is_open laws lawful queue bounded stages scores computes inbox gives
          board steady w
          (turn stages inbox board t s)
  unfolding turn
  turn_sound (captures tick) s ok h =
      captures-IsSound Working queue_of is_open laws lawful queue bounded stages scores computes
        inbox gives board steady w tick s h
  turn_sound (watches granted) s ok h =
      watches-IsSound Working queue_of is_open laws lawful queue bounded stages scores computes
        inbox gives board steady w granted s h
  turn_sound (streams granted header) s roomy h =
      let (t, done, sound, on, none_left) = streams-IsSound granted header s roomy h in
      (t, done, sound)
  turn_sound (logs free_heap min_free_heap) s ok h = (
    _,
    refl,
    record {
      source_works = h.source_works;
      frame_there = h.frame_there;
      fit = h.fit;
      ready = h.ready;
      idle = h.idle;
      same_open = h.same_open;
      configured = h.configured;
      agreed = h.agreed;
    },
  )

  -- From sound objects on, whatever rounds of whichever tasks follow each other: they all come to an
  -- end inside their arrays, and the objects are sound afterwards.
  pub run-IsSound :
      (ts : List Turn) (s : Firmware F a os n)
      → AreTurns ts
      → Fine s
      → Keeps Working queue_of is_open laws lawful queue bounded stages scores computes inbox gives
          board steady w
          (run stages inbox board ts s)
  unfolding run
  run-IsSound [] s ok h = (s, refl, h)
  run-IsSound (t ∷ ts) s (first, ok) h =
      let (u, done, sound) = turn_sound t s first h in
      let (v, rest, sound') = run-IsSound ts u ok sound in (v, rw done rest, sound')
