-- ===== src/Ring/Holder.antt =====
-- components/ring_buffer, ring_buffer.cpp: tasks that share a buffer, and the calls that have returned
-- as calls one after the other.
use vaani_edge.Base.{
  ℕ, ◌≡◌, refl, sym, ap, subst, true, false, not, ◌||◌, List, [], ◌∷◌, ◌∙◌, ◌++◌, Option, some,
  arith, length, ◌>>=◌, inl, inr, ◌⊎◌,
}
use Prim.{tt}
use vaani_edge.Ring.{RingBuffer}
use vaani_edge.Ring.Valid.{IsValid}
use vaani_edge.Ring.Trace.{
  Call, push, get_last, read, Reply, step, run, IsSized, AllSized, refused_unchanged,
  step-window_step,
}
use vaani_edge.Ring.Locked.{
  Access, clip, find_end, store_first, store_rest, move_write, move_read, limit, find_start,
  read_start, fetch_first, fetch_rest, drop_read, Local, access, is_void, is_granted, refusal,
  Place, outside, inside, Shared, set_place,
}
use vaani_edge.Ring.Alone.{complete, bind_assoc, bind_cong}

module _ {A : Type 0} where
  -- Only task `i` is behind the mutex, and what is left of its call ends as the whole call would
  -- have on the buffer `r`.
  pub record IsInside (r ring : RingBuffer A) (places : ℕ → Place A) (i : ℕ) (c : Call A)
      (ms : List Access) (l : Local A) : Type 0 where
    pub here : places i ≡ inside c ms l
    pub others : (j : ℕ) → (j ≡ i) ⊎ (places j ≡ outside)
    pub held : ring.mutex_held ≡ true
    pub same_capacity : ring.capacity ≡ r.capacity
    pub sized : IsSized c
    pub ends : complete c ms ring l ≡ step r c

  abbrev pub Standing : RingBuffer A → RingBuffer A → (ℕ → Place A) → Type 0
  Standing r ring places =
      ((ring ≡ r) × ((j : ℕ) → places j ≡ outside))
      ⊎ ((i : ℕ) × (c : Call A) × (ms : List Access) × (l : Local A) × IsInside r ring places i c ms
            l)

  -- `r` is the buffer after the calls that have returned, one after the other.
  pub record IsAtomic (r0 : RingBuffer A) (s : Shared A) (r : RingBuffer A) : Type 0 where
    pub sequential : run r0 s.calls ≡ some (r, s.replies)
    pub sized : AllSized s.calls
    pub valid : IsValid r
    pub free : r.mutex_held ≡ false
    pub standing : Standing r s.ring s.places

  -- One call more.
  abbrev at_end : Call A → RingBuffer A × List (Reply A) → Option (RingBuffer A × List (Reply A))
  at_end c (r, ps) = step r c >>= λ (r', p). some (r', ps ++ (p ∷ []))

  run-++ :
      (r : RingBuffer A) (cs : List (Call A)) (c : Call A)
      → run r (cs ++ (c ∷ [])) ≡ run r cs >>= at_end c
  unfolding run
  run-++ r [] c = refl
  run-++ r (d ∷ cs) c = rw (bind_assoc (step r d)) (
      bind_cong (step r d) _ _ (λ (r1, p1).
        rw (run-++ r1 cs c, bind_assoc (run r1 cs), bind_assoc (run r1 cs))
          (bind_cong (run r1 cs) _ _ (λ (r2, ps). bind_assoc (step r2 c) _ _))))

  sized_++ : (cs : List (Call A)) (c : Call A) → AllSized cs → IsSized c → AllSized (cs ++ (c ∷ []))
  sized_++ [] c sizes size = (size, tt)
  sized_++ (d ∷ cs) c sizes size = (sizes.0, sized_++ cs c sizes.1 size)

  -- A call that is refused changes nothing.
  pub step-refusal :
      (r : RingBuffer A) (c : Call A)
      → (is_void r c || not (is_granted c)) ≡ true
      → step r c ≡ some (r, refusal c)
  unfolding step
  step-refusal r (push granted xs) e = ground (arith, refused_unchanged granted xs (length xs) r)
  step-refusal r (get_last granted out) e =
      ground (arith, refused_unchanged granted out (length out) r)
  step-refusal r (read granted out) e = ground (arith, refused_unchanged granted out (length out) r)

  -- Only giving the mutex back changes whether it is held; nothing changes the capacity.
  pub access_keeps :
      (m : Access) (xs : List A) (r : RingBuffer A) (l : Local A) (r' : RingBuffer A) (l' : Local A)
      → access m xs r l ≡ some (r', l')
      → (r'.mutex_held ≡ r.mutex_held) × (r'.capacity ≡ r.capacity)
  unfolding access
  access_keeps clip xs r l r' l' e = ground arith
  access_keeps find_end xs r l r' l' e = ground arith
  access_keeps store_first xs r l r' l' e = ground arith
  access_keeps store_rest xs r l r' l' e = ground arith
  access_keeps move_write xs r l r' l' e = ground arith
  access_keeps move_read xs r l r' l' e = ground arith
  access_keeps limit xs r l r' l' e = ground arith
  access_keeps find_start xs r l r' l' e = ground arith
  access_keeps read_start xs r l r' l' e = ground arith
  access_keeps fetch_first xs r l r' l' e = ground arith
  access_keeps fetch_rest xs r l r' l' e = ground arith
  access_keeps drop_read xs r l r' l' e = ground arith

  pub Standing-capacity :
      (r ring : RingBuffer A) (places : ℕ → Place A)
      → Standing r ring places
      → ring.capacity ≡ r.capacity
  Standing-capacity r ring places (inl (same, all)) = ap (λ x. x.capacity) same
  Standing-capacity r ring places (inr (i, c, ms, l, there)) = there.same_capacity

  pub set_place_here : (places : ℕ → Place A) (i : ℕ) (p : Place A) → set_place places i p i ≡ p
  set_place_here places i p = ground arith

  pub others_set_place :
      (places : ℕ → Place A) (i : ℕ) (p : Place A) (j : ℕ)
      → (j ≡ i) ⊎ (places j ≡ outside)
      → (j ≡ i) ⊎ (set_place places i p j ≡ outside)
  others_set_place places i p j (inl same) = inl same
  others_set_place places i p j (inr gone) = ground arith

  pub outside_set_place :
      (places : ℕ → Place A) (i j : ℕ)
      → (j ≡ i) ⊎ (places j ≡ outside)
      → set_place places i outside j ≡ outside
  outside_set_place places i j (inl same) = ground arith
  outside_set_place places i j (inr gone) = ground arith

  pub inside_here :
      (r ring : RingBuffer A) (places : ℕ → Place A) (i : ℕ) (c : Call A) (ms : List Access)
      (l : Local A)
      → Standing r ring places
      → places i ≡ inside c ms l
      → IsInside r ring places i c ms l
  inside_here r ring places i c ms l (inl (same, all)) here = ground (arith, all i)
  inside_here r ring places i c ms l (inr (k, d, ns, m, there)) here = elim (there.others i) [
    | inl same ↦
        let both : inside d ns m ≡ inside c ms l = sym there.here ∙ ap places (sym same) ∙ here in
        let call : d ≡ c = cc in
        let left : ns ≡ ms = cc in
        let locals : m ≡ l = cc in
        record {
          here = here;
          others = λ j. elim (there.others j) [ inl e ↦ inl (e ∙ sym same) | inr o ↦ inr o ];
          held = there.held;
          same_capacity = there.same_capacity;
          sized = subst IsSized call there.sized;
          ends = rw (← call, ← left, ← locals) there.ends;
        }
    | inr gone ↦ ground arith
  ]

  -- One more call has returned.
  pub returned :
      (r0 : RingBuffer A) (s : Shared A) (r r' : RingBuffer A) (c : Call A) (p : Reply A)
      → IsAtomic r0 s r
      → IsSized c
      → step r c ≡ some (r', p)
      → (run r0 (s.calls ++ (c ∷ [])) ≡ some (r', s.replies ++ (p ∷ [])))
        × AllSized (s.calls ++ (c ∷ []))
        × IsValid r'
  returned r0 s r r' c p inv size e =
      let (r1, e1, v1, same, shown) = step-window_step r c inv.valid size in
      let same_buffer : r1 ≡ r' = cc in
      (
        rw (run-++ r0 s.calls c, inv.sequential, e) refl,
        sized_++ s.calls c inv.sized size,
        subst IsValid same_buffer v1,
      )
