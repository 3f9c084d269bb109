-- ===== src/App/KeywordTests.antt =====
-- A round of the capture task with the mock source, and of the keyword task on a full ring buffer,
-- with an inference that is sure of itself and with that of kws_inference.cpp.
use vaani_edge.Base.{
  ℕ, suc, ◌≡◌, refl, true, false, if◌then◌else◌, ltb, ◌++◌, inr, some, List, [], ◌∷◌, arith, length,
  replicate, length-replicate, pos,
}
use vaani_edge.Float.{hundredths}
use vaani_edge.Ring.{RingBuffer}
use vaani_edge.Ring.Valid.{IsValid}
use vaani_edge.Trigger.{listening}
use vaani_edge.Metrics
use vaani_edge.Features.{FeatureExtractor}
use vaani_edge.App.Outcome.{IsComputed, IsScored, feature_count, Fit}
use vaani_edge.App.Tasks.{queue_length}
use vaani_edge.App.Tasks.Watcher.{IsQueue}
use vaani_edge.App.Keyword.{Rtos, Stages, Listener, required_samples, kws_round}
use vaani_edge.App.Requests.{Settled, kws_round-Settled}
use vaani_edge.Config.{frame_size_samples}
use vaani_edge.Audio.Contract.{mock}
use vaani_edge.App.Capture.{Recorder, Tick}

-- A clock that every reading and every random number advances, and a queue of two places.
pub record World : Type 0 where
  pub clock : ℕ
  pub queue : List (List ℕ)

abbrev pub os : Rtos
os = record {
  World = World;
  random = λ w. (w.clock, record w { clock = suc w.clock });
  timer = λ w. (w.clock, record w { clock = suc w.clock });
  queue_send = λ id w. (
    ltb (length w.queue) queue_length,
    record w {
      queue = if ltb (length w.queue) queue_length then w.queue ++ (id ∷ []) else w.queue;
    },
  );
}

pub os-IsQueue : IsQueue os (λ w. w.queue)
os-IsQueue = record {
  timer_keeps = λ w. refl;
  random_keeps = λ w. refl;
  send_taken = λ id w. refl;
  send_queue = λ id w. refl;
}

-- An extractor that leaves the features as they are, and an inference that is sure of itself.
abbrev pub sure : Stages ℕ
sure = record {
  compute = λ window count features. some (features, true);
  run = λ features result.
      (record { probabilities = 0 ∷ 0 ∷ 0 ∷ 99 ∷ []; inference_duration_us = 7 }, pos 0);
}

pub sure-IsScored : IsScored sure
sure-IsScored = record { scores = λ features result good. refl }

pub sure-IsComputed : IsComputed sure
sure-IsComputed = record { computes = λ window features size room. ((features, true), refl, room) }

abbrev pub full : RingBuffer ℕ
full = record {
  storage = replicate required_samples 5;
  capacity = required_samples;
  write_pos = 0;
  filled = required_samples;
  read_pos = 0;
  mutex_held = false;
}

pub full-IsValid : IsValid full
full-IsValid = record {
  nonempty = omega arith;
  small = omega arith;
  storage_full = length-replicate {A = ℕ} required_samples 5;
  write_in = omega arith;
  read_in = omega arith;
  filled_le = omega arith;
  in_step = inr (omega arith);
}

abbrev pub listener : Listener ℕ os
listener = record {
  world = record { clock = 0; queue = [] };
  ring = full;
  window_buffer = replicate required_samples 0;
  features = replicate feature_count 0;
  result = record { probabilities = []; inference_duration_us = 0 };
  trigger = record {
    threshold = 85;
    consecutive_positive_windows = 1;
    cooldown_windows = 75;
    consecutive_count = 0;
    cooldown_remaining = 0;
    state = listening;
  };
  metrics = Metrics.init;
  requests = [];
}

pub listener-Fit : Fit listener
listener-Fit = record {
  ring_valid = full-IsValid;
  window_size = length-replicate {A = ℕ} required_samples 0;
  features_size = length-replicate {A = ℕ} feature_count 0;
}

kws_round-Settled_example :
    (t : Listener ℕ os) × (ms : ℕ) × (kws_round sure true listener ≡ some (t, ms))
    × Settled listener t
    × Fit t
kws_round-Settled_example =
    kws_round-Settled sure true listener sure-IsScored sure-IsComputed listener-Fit

abbrev pub extractor : FeatureExtractor ℕ
extractor = record { mel_filterbank = (0 ∷ 100 ∷ []) ∷ []; window = replicate 512 50 }

abbrev pub recorder : Recorder (mock ℕ)
recorder = record {
  source = record { sample_index = 480; initialized = true };
  frame = some (replicate frame_size_samples 0);
  ring = full;
  metrics = Metrics.init;
}

abbrev pub granted_tick : Tick
granted_tick = record { granted = true; t0 = 1000; t1 = 31000 }
