-- ===== src/App/WireTests.antt =====
-- A session on the loopback network, with a ring buffer that holds two samples, has a whole frame for
-- every round, and gets one sample from another task between any two accesses.
use vaani_edge.Base.{ℕ, ◌≡◌, refl, Bool, true, false, Option, none, some, [], ◌∷◌, ◌+◌, map, arith}
use Prim.{tt}
use vaani_edge.Ring.{RingBuffer}
use vaani_edge.Ring
use vaani_edge.Ring.Push.{push-keep_last}
use vaani_edge.Ring.Stream.{nothing-IsRecorded, push-IsRecorded}
use vaani_edge.Config.{frame_size_samples}
use vaani_edge.Net.Loopback.{is_open, loopback}
use vaani_edge.Transport.Framing.{received, parse}
use vaani_edge.App.Streaming.{Board, Station, max_extra_frames}
use vaani_edge.App.SessionBytes.{session_bytes}
use vaani_edge.App.SessionMessages.{session_messages, parse-session_bytes}
use vaani_edge.App.Session.{IsSteady}
use vaani_edge.App.Wire.{IsQuiet}
use vaani_edge.App.Tests.{station, blank, session}

abbrev pub pushed : RingBuffer ℕ → Option (RingBuffer ℕ × Bool) → RingBuffer ℕ
pushed r none = r
pushed r (some (t, done)) = t

abbrev pub talking : Board loopback
talking = record {
  start_streaming = λ r. some r;
  read_streaming = λ r frame n. some (r, frame, n);
  meanwhile = λ r w. pushed r (Ring.push true (some (5 ∷ [])) 1 r);
  task_delay = λ ms r w. (r, w);
}

pub talking-IsSteady : IsSteady is_open talking
talking-IsSteady = record {
  start_inside = λ r v. (r, refl, v);
  read_inside = λ r frame v size. (r, frame, frame_size_samples, refl, v, size, omega arith);
  meanwhile_records = λ r w v.
      let (r', e, p) = push-keep_last r (5 ∷ []) 1 v (omega arith) (omega arith) (omega arith) in
      (5 ∷ [], rw e (push-IsRecorded r r' r' (5 ∷ []) [] p (nothing-IsRecorded r' p.valid)));
  delay_valid = λ ms r w v. v;
  delay_open = λ ms r w x. refl;
}

pub talking-IsQuiet : IsQuiet (λ w. w.wire) talking
talking-IsQuiet = record { delay_wire = λ ms r w. refl }

abbrev spoken : RingBuffer ℕ
spoken = record {
  storage = 9 ∷ 7 ∷ 8 ∷ [];
  capacity = 3;
  write_pos = 1;
  filled = 2;
  read_pos = 2;
  mutex_held = false;
}

abbrev ready : Station loopback
ready = record station { ring = spoken }

-- Two chunks behind a pre-roll of one sample.
parse-session_bytes_example :
    parse
      (max_extra_frames + 3)
      blank
      (session_bytes session (8 ∷ []) ((1 ∷ 2 ∷ []) ∷ (3 ∷ 4 ∷ []) ∷ []))
    ≡ some (map received (session_messages session (8 ∷ []) ((1 ∷ 2 ∷ []) ∷ (3 ∷ 4 ∷ []) ∷ [])))
parse-session_bytes_example =
    parse-session_bytes session (8 ∷ []) ((1 ∷ 2 ∷ []) ∷ (3 ∷ 4 ∷ []) ∷ []) blank refl
      (record { magic = refl; session = refl }) (omega arith) (omega arith)
      (omega arith, (omega arith, tt))
