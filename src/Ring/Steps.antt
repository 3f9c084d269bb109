-- ===== src/Ring/Steps.antt =====
-- components/ring_buffer, ring_buffer.cpp: what a step of a task leaves, while tasks share a buffer.
use vaani_edge.Base.{
  ℕ, ◌≡◌, refl, sym, ap, subst, Bool, true, false, not, ◌||◌, List, [], ◌∷◌, ◌∙◌, ◌++◌, Option,
  some, arith, of_bind, Bool-cases, inl, inr,
}
use vaani_edge.Ring.{RingBuffer, take_mutex, give_mutex}
use vaani_edge.Ring.Trace.{Call, step, IsSized, step-window_step}
use vaani_edge.Ring.Locked.{
  Access, Local, access, samples_of, reply_of, program, locals_of, is_void, is_granted, refusal,
  Place, outside, inside, Shared, Event, attempt, go_on, step_at, schedule, set_place,
}
use vaani_edge.Ring.Holder.{
  IsAtomic, set_place_here, others_set_place, outside_set_place, inside_here, returned,
  Standing-capacity, access_keeps, step-refusal,
}
use vaani_edge.Ring.Alone.{complete, complete-step, complete_done, complete_next}

both_false : (a b : Bool) → (a || not b) ≡ false → (a ≡ false) × (b ≡ true)
both_false a b e = ground arith

module _ {A : Type 0} where
  -- A count is a size_t.
  abbrev pub IsSizedEvent : Event A → Type 0
  IsSizedEvent (attempt c) = IsSized c
  IsSizedEvent go_on = Unit

  abbrev pub AllSizedEvents : List (ℕ × Event A) → Type 0
  AllSizedEvents [] = Unit {0}
  AllSizedEvents ((i, e) ∷ es) = IsSizedEvent e × AllSizedEvents es

  abbrev pub at_place : Shared A → RingBuffer A → ℕ → Place A → Shared A
  at_place s ring i p = record s { ring = ring; places = set_place s.places i p }

  -- What a step leaves.
  abbrev pub Stepped : RingBuffer A → Option (Shared A) → Type 0
  Stepped r0 o = (t : Shared A) × (o ≡ some t) × ((r : RingBuffer A) × IsAtomic r0 t r)

  refused-IsAtomic :
      (r0 : RingBuffer A) (s : Shared A) (r : RingBuffer A) (c : Call A)
      → IsAtomic r0 s r
      → IsSized c
      → step r c ≡ some (r, refusal c)
      → IsAtomic r0
          (record s { calls = s.calls ++ (c ∷ []); replies = s.replies ++ (refusal c ∷ []) })
          r
  refused-IsAtomic r0 s r c inv size e =
      let (sequential, sized, valid) = returned r0 s r r c (refusal c) inv size e in
      record {
        sequential = sequential;
        sized = sized;
        valid = valid;
        free = inv.free;
        standing = inv.standing;
      }

  -- The task that takes the free mutex has the whole of its call before it.
  entered-IsAtomic :
      (r0 : RingBuffer A) (s : Shared A) (r : RingBuffer A) (i : ℕ) (c : Call A)
      → IsAtomic r0 s r
      → IsSized c
      → (is_void r c || not (is_granted c)) ≡ false
      → s.ring.mutex_held ≡ false
      → IsAtomic r0 (at_place s (take_mutex s.ring) i (inside c (program c) (locals_of c))) r
  entered-IsAtomic r0 s r i c inv size there free = elim inv.standing [
    | inl standing ↦ record {
      sequential = inv.sequential;
      sized = inv.sized;
      valid = inv.valid;
      free = inv.free;
      standing = inr (
        i,
        c,
        program c,
        locals_of c,
        record {
          here = set_place_here s.places i _;
          others = λ j. others_set_place s.places i _ j (inr (standing.1 j));
          held = refl;
          same_capacity = ap (λ b. b.capacity) standing.0;
          sized = size;
          ends =
              subst (λ b. complete c (program c) (take_mutex b) (locals_of c) ≡ step r c)
                (sym standing.0)
                (complete-step c r (both_false _ _ there).0 (both_false _ _ there).1);
        },
      );
    }
    | inr (k, d, ms, l, other) ↦ ground arith
  ]

  attempt-Stepped :
      (r0 : RingBuffer A) (s : Shared A) (r : RingBuffer A) (i : ℕ) (c : Call A)
      → IsAtomic r0 s r
      → IsSized c
      → Stepped r0 (step_at outside i (attempt c) s)
  unfolding step_at
  attempt-Stepped r0 s r i c inv size =
      let capacity : s.ring.capacity ≡ r.capacity = Standing-capacity r _ _ inv.standing in
      elim (Bool-cases (is_void s.ring c || not (is_granted c))) [
        | inl refused ↦ (
          record s { calls = s.calls ++ (c ∷ []); replies = s.replies ++ (refusal c ∷ []) },
          rw refused refl,
          (r, refused-IsAtomic r0 s r c inv size (step-refusal r c (rw (sym capacity) refused))),
        )
        | inr there ↦ elim (Bool-cases s.ring.mutex_held) [
          | inl held ↦ (s, rw (there, held) refl, (r, inv))
          | inr free ↦ (
            at_place s (take_mutex s.ring) i (inside c (program c) (locals_of c)),
            rw (there, free) refl,
            (r, entered-IsAtomic r0 s r i c inv size (rw (← capacity) there) free),
          )
        ]
      ]

  pub return-Stepped :
      (r0 : RingBuffer A) (s : Shared A) (r : RingBuffer A) (i : ℕ) (c : Call A) (l : Local A)
      (e : Event A)
      → IsAtomic r0 s r
      → s.places i ≡ inside c [] l
      → Stepped r0 (step_at (inside c [] l) i e s)
  unfolding step_at
  return-Stepped r0 s r i c l e inv here =
      let at = inside_here r s.ring s.places i c [] l inv.standing here in
      let (sequential, sized, valid) =
        returned r0 s r (give_mutex s.ring) c (reply_of c l) inv at.sized
          (sym at.ends ∙ complete_done c s.ring l) in
      (
        record s {
          ring = give_mutex s.ring;
          places = set_place s.places i outside;
          calls = s.calls ++ (c ∷ []);
          replies = s.replies ++ (reply_of c l ∷ []);
        },
        refl,
        (
          give_mutex s.ring,
          record {
            sequential = sequential;
            sized = sized;
            valid = valid;
            free = refl;
            standing = inl (refl, λ j. outside_set_place s.places i j (at.others j));
          },
        ),
      )

  pub access-IsAtomic :
      (r0 : RingBuffer A) (s : Shared A) (r : RingBuffer A) (i : ℕ) (c : Call A) (m : Access)
      (ms : List Access) (l : Local A) (e : Event A)
      → IsAtomic r0 s r
      → s.places i ≡ inside c (m ∷ ms) l
      → (ring : RingBuffer A) × (l' : Local A) × (step_at (inside c (m ∷ ms) l) i e s
          ≡ some (at_place s ring i (inside c ms l')))
        × IsAtomic r0 (at_place s ring i (inside c ms l')) r
  unfolding step_at
  access-IsAtomic r0 s r i c m ms l e inv here =
      let at = inside_here r s.ring s.places i c (m ∷ ms) l inv.standing here in
      let (t, done, valid, same, shown) = step-window_step r c inv.valid at.sized in
      let ((ring, l'), first, rest) =
        of_bind (access m (samples_of c) s.ring l) _ _
          (sym (complete_next c m ms s.ring l) ∙ at.ends ∙ done) in
      let (held, capacity) = access_keeps m (samples_of c) s.ring l ring l' first in
      (
        ring,
        l',
        rw first refl,
        record {
          sequential = inv.sequential;
          sized = inv.sized;
          valid = inv.valid;
          free = inv.free;
          standing = inr (
            i,
            c,
            ms,
            l',
            record {
              here = set_place_here s.places i _;
              others = λ j. others_set_place s.places i _ j (at.others j);
              held = held ∙ at.held;
              same_capacity = capacity ∙ at.same_capacity;
              sized = at.sized;
              ends = rest ∙ sym done;
            },
          );
        },
      )

  step_at-Stepped :
      (r0 : RingBuffer A) (s : Shared A) (r : RingBuffer A) (i : ℕ) (e : Event A) (p : Place A)
      → s.places i ≡ p
      → IsAtomic r0 s r
      → IsSizedEvent e
      → Stepped r0 (step_at p i e s)
  unfolding step_at
  step_at-Stepped r0 s r i go_on outside here inv size = (s, refl, (r, inv))
  step_at-Stepped r0 s r i (attempt c) outside here inv size = attempt-Stepped r0 s r i c inv size
  step_at-Stepped r0 s r i e (inside c [] l) here inv size = return-Stepped r0 s r i c l e inv here
  step_at-Stepped r0 s r i e (inside c (m ∷ ms) l) here inv size =
      let (ring, l', done, after) = access-IsAtomic r0 s r i c m ms l e inv here in
      (_, done, (r, after))

  pub schedule-Stepped :
      (r0 : RingBuffer A) (es : List (ℕ × Event A)) (s : Shared A) (r : RingBuffer A)
      → IsAtomic r0 s r
      → AllSizedEvents es
      → Stepped r0 (schedule es s)
  unfolding schedule
  schedule-Stepped r0 [] s r inv sizes = (s, refl, (r, inv))
  schedule-Stepped r0 ((i, e) ∷ es) s r inv sizes =
      let (t, done, (r', after)) = step_at-Stepped r0 s r i e (s.places i) refl inv sizes.0 in
      let (u, rest, end) = schedule-Stepped r0 es t r' after sizes.1 in (u, rw done rest, end)
