-- ===== src/App/Tasks.antt =====
-- main/app_main.cpp: `KwsTask` and `StreamingTask`, interleaved over the trigger and the request
-- queue that they share. A step of a task is one access to them; what the task does in between is
-- its own. The code takes no lock around these accesses.
pub mod Requested
pub mod Stuck
pub mod Priority
pub mod Watcher
pub mod Streamer
mod Tests
use vaani_edge.Base.{
  ℕ, zero, suc, ◌+◌, Bool, true, false, Option, none, some, List, [], ◌∷◌, ◌++◌, ltb, if◌then◌else◌,
  length, ℤ, pos,
}
use vaani_edge.Float.{Float}
use vaani_edge.Trigger.{
  TriggerStateMachine, AppState, listening, streaming, session_complete, error_recovery,
  is_listening, update, force_state,
}
use vaani_edge.App.Keyword.{is_detected}

-- Where `KwsTask` stands: at the head of its loop; behind the test of the state; behind an `Update`
-- that has detected the keyword; behind an `xQueueSend` that was taken, or refused.
pub data Watch : Type 0 where
  looking checked detected queued refused : Watch

-- Where `StreamingTask` stands: in `xQueueReceive`; in a session; in the wait after `kErrorRecovery`;
-- behind `kSessionComplete`.
pub data Stream : Type 0 where
  waiting serving recovering completing : Stream

pub record System (F : Type 0) : Type 0 where
  pub trigger : TriggerStateMachine F
  pub queue : List (List ℕ)
  pub watch : Watch
  pub stream : Stream

-- `xQueueCreate(2, ...)`
abbrev pub queue_length : ℕ
queue_length = 2

-- The next step of one of the tasks. `score` is the keyword's probability, or `none` for a round
-- that ends without one; `id` is the session id if one is needed; `delivered` is whether the
-- session gets as far as the live frames.
pub data Turn (F : Type 0) : Type 0 where
  watcher : (score : Option F) (id : List ℕ) → Turn F
  streamer : (delivered : Bool) → Turn F

abbrev pub start : {F : Type 0} → TriggerStateMachine F → System F
start trigger = record { trigger = trigger; queue = []; watch = looking; stream = waiting }

module _ {F : Type 0} ⦃f : Float F⦄ where
  unfoldable pub judged : Option F → System F → System F
  judged none s = record s { watch = looking }
  judged (some p) s =
      let t = update p s.trigger in
      record s { trigger = t; watch = if is_detected t.state then detected else looking }

  unfoldable pub watch_step : Watch → Option F → List ℕ → System F → System F
  unfolding judged
  watch_step looking score id s = record s {
    watch = if is_listening s.trigger.state then checked else looking;
  }
  watch_step checked score id s = judged score s
  watch_step detected score id s =
      if ltb (length s.queue) queue_length
      then record s { queue = s.queue ++ (id ∷ []); watch = queued }
      else record s { watch = refused }
  watch_step queued score id s = record s {
    trigger = force_state streaming s.trigger;
    watch = looking;
  }
  watch_step refused score id s = record s {
    trigger = force_state listening s.trigger;
    watch = looking;
  }

  unfoldable pub receive : List (List ℕ) → System F → System F
  receive [] s = s
  receive (id ∷ rest) s = record s { queue = rest; stream = serving }

  unfoldable pub stream_step : Stream → Bool → System F → System F
  unfolding receive
  stream_step waiting delivered s = receive s.queue s
  stream_step serving delivered s =
      if delivered
      then record s { trigger = force_state session_complete s.trigger; stream = completing }
      else record s { trigger = force_state error_recovery s.trigger; stream = recovering }
  stream_step recovering delivered s = record s {
    trigger = force_state listening s.trigger;
    stream = waiting;
  }
  stream_step completing delivered s = record s {
    trigger = force_state listening s.trigger;
    stream = waiting;
  }

  unfoldable pub step : Turn F → System F → System F
  unfolding watch_step stream_step
  step (watcher score id) s = watch_step s.watch score id s
  step (streamer delivered) s = stream_step s.stream delivered s

  unfoldable pub run : List (Turn F) → System F → System F
  run [] s = s
  run (turn ∷ turns) s = run turns (step turn s)
