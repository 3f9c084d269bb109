-- ===== src/Ring/LockedTests.antt =====
-- Three tasks that share the buffer of Ring/Tests: one pushes, one looks at the newest samples, and
-- one does not get the mutex in time.
use vaani_edge.Base.{
  ℕ, ◌≡◌, refl, true, false, List, [], ◌∷◌, ◌++◌, some, arith, splice, memcpy, replicate,
}
use vaani_edge.Ring.Trace.{Call, push, get_last, pushed, got}
use vaani_edge.Ring.Locked.{
  Access, clip, find_end, store_first, store_rest, move_write, move_read, Local, access, inside,
  outside, Shared, Event, attempt, go_on, step_at, schedule, unused, set_place,
}
use vaani_edge.Ring.Atomic.{IsSequential, schedule-IsSequential, schedule-go_on}
use vaani_edge.Ring.Tests.{wrapped, wrapped-IsValid}

-- Task 0 is in the middle of a push when task 1 attempts to look, and task 2 gives up.
abbrev begun : List (ℕ × Event ℕ)
begun =
    (0, attempt (push true (1 ∷ 2 ∷ [])))
    ∷ (0, go_on)
    ∷ (1, attempt (get_last true (0 ∷ 0 ∷ [])))
    ∷ (0, go_on)
    ∷ (2, attempt (push false (5 ∷ [])))
    ∷ (0, go_on)
    ∷ []

abbrev call : Call ℕ
call = push true (1 ∷ 2 ∷ [])

abbrev locals : ℕ → Local ℕ
locals place = record { skip = 0; count = 2; place = place; out = [] }

abbrev left : List Access
left = store_rest ∷ move_write ∷ move_read ∷ []

abbrev midway : Shared ℕ
midway = record {
  ring = record wrapped { storage = 9 ∷ 1 ∷ 2 ∷ []; mutex_held = true };
  places =
      set_place
        (set_place
          (set_place
            (set_place (λ i. outside) 0
              (inside call (clip ∷ find_end ∷ store_first ∷ left) (locals 0)))
            0 (inside call (find_end ∷ store_first ∷ left) (locals 0)))
          0 (inside call (store_first ∷ left) (locals 3)))
        0 (inside call left (locals 3));
  calls = push false (5 ∷ []) ∷ [];
  replies = pushed false ∷ [];
}

schedule-begun : schedule begun (unused wrapped) ≡ some midway
unfolding schedule step_at access memcpy splice
schedule-begun = refl

-- Task 0 comes out, and task 1 has its turn.
abbrev ended : List (ℕ × Event ℕ)
ended =
    begun
    ++ ((0, go_on)
        ∷ (0, go_on)
        ∷ (0, go_on)
        ∷ (0, go_on)
        ∷ (1, attempt (get_last true (0 ∷ 0 ∷ [])))
        ∷ (1, go_on)
        ∷ (1, go_on)
        ∷ (1, go_on)
        ∷ (1, go_on)
        ∷ (1, go_on)
        ∷ [])

schedule-ended :
    (s : Shared ℕ) × (schedule ended (unused wrapped) ≡ some s)
    × (s.calls ≡ push false (5 ∷ []) ∷ call ∷ get_last true (0 ∷ 0 ∷ []) ∷ [])
    × (s.replies ≡ pushed false ∷ pushed true ∷ got (1 ∷ 2 ∷ []) 2 ∷ [])
unfolding schedule step_at access memcpy splice
schedule-ended = (_, refl, refl, refl)

schedule-IsSequential_example :
    (s : Shared ℕ) × (schedule ended (unused wrapped) ≡ some s) × IsSequential wrapped s
schedule-IsSequential_example =
    schedule-IsSequential wrapped ended wrapped-IsValid refl (omega arith)

schedule-go_on_example :
    (t : Shared ℕ) × (schedule (replicate 4 (0, go_on)) midway ≡ some t)
    × (t.places 0 ≡ outside)
    × (t.ring.mutex_held ≡ false)
    × (t.calls ≡ push false (5 ∷ []) ∷ call ∷ [])
schedule-go_on_example =
    schedule-go_on wrapped begun midway 0 call left (locals 3) wrapped-IsValid refl (omega arith)
      schedule-begun refl
