-- ===== src/Ring/Atomic.antt =====
-- components/ring_buffer, ring_buffer.cpp: the calls of tasks that run at the same time, and the
-- window on the samples.
use vaani_edge.Base.{
  ℕ, ◌≡◌, ◌≢◌, refl, sym, ap, ◌∙◌, subst, true, false, List, [], ◌∷◌, ◌++◌, some, inl, inr, ◌⊎◌,
  length, replicate, suc,
}
use Prim.{tt}
use vaani_edge.Ring.{RingBuffer, give_mutex}
use vaani_edge.Ring.Valid.{IsValid}
use vaani_edge.Ring.Contents.{contents}
use vaani_edge.Ring.Trace.{Call, run, window_run, run-window_run}
use vaani_edge.Ring.Locked.{
  Access, Local, outside, inside, Shared, Event, go_on, step_at, schedule, unused, set_place,
  reply_of,
}
use vaani_edge.Ring.Holder.{Standing, IsAtomic, set_place_here}
use vaani_edge.Ring.Steps.{AllSizedEvents, schedule-Stepped, access-IsAtomic, at_place}

-- The calls that have returned are those of a window; at most one task is behind the mutex, and
-- when none is, the mutex is free and the buffer shows the window after these calls.
pub record IsSequential {A : Type 0} (r : RingBuffer A) (s : Shared A) : Type 0 where
  replies : (window_run r.capacity (contents r) s.calls).1 ≡ s.replies
  alone : (i j : ℕ) → (i ≡ j) ⊎ (s.places i ≡ outside) ⊎ (s.places j ≡ outside)
  shown :
      (((i : ℕ) → s.places i ≡ outside)
        × (s.ring.mutex_held ≡ false)
        × IsValid s.ring
        × (contents s.ring ≡ (window_run r.capacity (contents r) s.calls).0))
      ⊎ ((i : ℕ) × (s.places i ≢ outside) × (s.ring.mutex_held ≡ true))

module _ {A : Type 0} where
  unused-IsAtomic : (r : RingBuffer A) → IsValid r → r.mutex_held ≡ false → IsAtomic r (unused r) r
  unfolding run
  unused-IsAtomic r v free = record {
    sequential = refl;
    sized = tt;
    valid = v;
    free = free;
    standing = inl (refl, λ j. refl);
  }

  only_one :
      (r : RingBuffer A) (s : Shared A)
      → Standing r s.ring s.places
      → (i j : ℕ) → (i ≡ j) ⊎ (s.places i ≡ outside) ⊎ (s.places j ≡ outside)
  only_one r s (inl (same, all)) i j = inr (inl (all i))
  only_one r s (inr (k, c, ms, l, there)) i j = elim (there.others i) [
    | inr gone ↦ inr (inl gone)
    | inl here ↦ elim (there.others j) [
      | inr gone ↦ inr (inr gone)
      | inl here' ↦ inl (here ∙ sym here')
    ]
  ]

  IsAtomic-IsSequential :
      (r0 : RingBuffer A) (s : Shared A) (r : RingBuffer A)
      → IsValid r0
      → IsAtomic r0 s r
      → IsSequential r0 s
  IsAtomic-IsSequential r0 s r v inv =
      let (r', e, v', shown) = run-window_run r0 s.calls v inv.sized in
      let same : r' ≡ r = cc in
      record {
        replies = cc;
        alone = only_one r s inv.standing;
        shown = elim inv.standing [
          | inl standing ↦ inl (
            standing.1,
            ap (λ b. b.mutex_held) standing.0 ∙ inv.free,
            subst IsValid (sym standing.0) inv.valid,
            ap contents (standing.0 ∙ sym same) ∙ shown,
          )
          | inr (i, c, ms, l, there) ↦ inr (i, (λ gone. cc), there.held)
        ];
      }

  -- From a valid buffer whose mutex is free, whatever calls of however many tasks overlap in
  -- whatever way, and whichever mutex attempts time out, every access is inside the arrays. At any
  -- moment at most one task is behind the mutex; the calls that have returned, in the order in which
  -- they have returned, have returned what a window on the samples replies to these calls one after
  -- the other; and whenever no task is behind the mutex, it is free, and the buffer is valid and
  -- shows what that window shows.
  pub schedule-IsSequential :
      (r : RingBuffer A) (es : List (ℕ × Event A))
      → IsValid r
      → r.mutex_held ≡ false
      → AllSizedEvents es
      → (s : Shared A) × (schedule es (unused r) ≡ some s) × IsSequential r s
  schedule-IsSequential r es v free sizes =
      let (s, done, (r', inv)) =
        schedule-Stepped r es (unused r) r (unused-IsAtomic r v free) sizes in
      (s, done, IsAtomic-IsSequential r s r' v inv)

  -- The task behind the mutex, left to itself.
  goes_out :
      (r0 : RingBuffer A) (s : Shared A) (r : RingBuffer A) (i : ℕ) (c : Call A) (ms : List Access)
      (l : Local A)
      → IsAtomic r0 s r
      → s.places i ≡ inside c ms l
      → (t : Shared A) × (schedule (replicate (suc (length ms)) (i, go_on)) s ≡ some t)
        × (t.places i ≡ outside)
        × (t.ring.mutex_held ≡ false)
        × (t.calls ≡ s.calls ++ (c ∷ []))
  unfolding schedule step_at
  goes_out r0 s r i c [] l inv here = (
    record s {
      ring = give_mutex s.ring;
      places = set_place s.places i outside;
      calls = s.calls ++ (c ∷ []);
      replies = s.replies ++ (reply_of c l ∷ []);
    },
    rw here refl,
    set_place_here s.places i outside,
    refl,
    refl,
  )
  goes_out r0 s r i c (m ∷ ms) l inv here =
      let (ring, l', done, after) = access-IsAtomic r0 s r i c m ms l go_on inv here in
      let (t, rest, out, free, calls) =
        goes_out r0 (at_place s ring i (inside c ms l')) r i c ms l' after
          (set_place_here s.places i _) in
      (t, rw (here, done) rest, out, free, calls)

  -- A task that is behind the mutex at any moment of any schedule, left to itself, comes out after
  -- its remaining accesses: its call then returns, and the mutex is free.
  pub schedule-go_on :
      (r : RingBuffer A) (es : List (ℕ × Event A)) (s : Shared A) (i : ℕ) (c : Call A)
      (ms : List Access) (l : Local A)
      → IsValid r
      → r.mutex_held ≡ false
      → AllSizedEvents es
      → schedule es (unused r) ≡ some s
      → s.places i ≡ inside c ms l
      → (t : Shared A) × (schedule (replicate (suc (length ms)) (i, go_on)) s ≡ some t)
        × (t.places i ≡ outside)
        × (t.ring.mutex_held ≡ false)
        × (t.calls ≡ s.calls ++ (c ∷ []))
  schedule-go_on r es s i c ms l v free sizes reached here =
      let (s', done, (r', inv)) =
        schedule-Stepped r es (unused r) r (unused-IsAtomic r v free) sizes in
      let same : s' ≡ s = cc in
      goes_out r s r' i c ms l (subst (λ x. IsAtomic r x r') same inv) here
