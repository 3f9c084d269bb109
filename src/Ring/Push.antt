-- ===== src/Ring/Push.antt =====
-- `Push`: what it stores where, that it keeps the invariant, and what the buffer holds afterwards.
use vaani_edge.Base.{
  ℕ, ◌+◌, ◌-◌, ◌^◌, ◌≤◌, ◌<◌, ◌≡◌, refl, ◌⊎◌, inl, inr, true, false, ◌&&◌, List, ◌++◌, none, some,
  arith, length, get_elem?, take, ltb, leb, if◌then◌else◌, min, u32, sub32, splice, memcpy-some,
  length-splice, get_elem?-splice, get_elem?-append, get_elem?-take, get_elem?-drop, get_elem?_ext,
  length-append, length-take, Bool-cases,
}
use vaani_edge.Ring.{take_mutex, RingBuffer, copy_in, advance, push_held, push, give_mutex}
use vaani_edge.Ring.Valid.{IsValid, mod_once}
use vaani_edge.Ring.Contents.{contents, keep_last, get_elem?-contents, length-contents}

module _ {A : Type 0} where
  -- The storage `s` after `n` samples from index `skip` of `xs` on were written into it from
  -- `write_pos` on, going round at the capacity.
  pub record IsStored (r : RingBuffer A) (xs : List A) (skip n : ℕ) (s : List A) : Type 0 where
    pub same_length : length s ≡ r.capacity
    pub at_index :
        (k : ℕ)
        → k < r.capacity
        → get_elem? s k ≡ (
            if leb r.write_pos k && ltb k (r.write_pos + n)
            then get_elem? xs (skip + (k - r.write_pos))
            else if ltb (k + r.capacity) (r.write_pos + n)
            then get_elem? xs (skip + (k + r.capacity - r.write_pos))
            else get_elem? r.storage k)

  copy_in-IsStored :
      (r : RingBuffer A) (xs : List A) (skip n : ℕ)
      → IsValid r
      → n ≤ r.capacity
      → skip + n ≤ length xs
      → (s : List A) × (copy_in r xs skip n ≡ some s) × IsStored r xs skip n s
  unfolding copy_in
  copy_in-IsStored r xs skip n v fits there = elim (Bool-cases (leb (u32 (w + n)) cap)) [
    | inl one ↦ (
      splice store w xs skip n,
      ground (arith, memcpy-some store w xs skip n),
      record {
        same_length = ground (arith, length-splice store w xs skip n);
        at_index = λ k h. ground (arith, get_elem?-splice store w xs skip n k);
      },
    )
    | inr two ↦
        let f : ℕ = cap - w in
        let part : List A = splice store w xs skip f in
        let e : length part ≡ cap = ground (arith, length-splice store w xs skip f) in
        (
          splice part 0 xs (skip + f) (n - f),
          ground (arith, memcpy-some store w xs skip f, memcpy-some part 0 xs (skip + f) (n - f)),
          record {
            same_length = ground (arith, length-splice part 0 xs (skip + f) (n - f));
            at_index = λ k h. ground (
              arith,
              get_elem?-splice part 0 xs (skip + f) (n - f) k,
              get_elem?-splice store w xs skip f k,
            );
          },
        )
  ]
    where
      open r use {storage as store, write_pos as w, capacity as cap}

  -- What the positions say after `advance`.
  advance-IsValid :
      (r : RingBuffer A) (s : List A) (n : ℕ)
      → IsValid r
      → n ≤ r.capacity
      → length s ≡ r.capacity
      → IsValid (advance (record r { storage = s }) n)
  unfolding advance
  advance-IsValid r s n v fits e = ground (
    arith,
    mod_once (r.write_pos + n) r.capacity,
    mod_once (r.read_pos + (r.filled + n - r.capacity)) r.capacity,
  )

  -- Where the `i`-th oldest sample stands after `advance`.
  place : RingBuffer A → ℕ → ℕ → ℕ
  place r n i =
      let p = r.read_pos + (r.filled + n - r.capacity) + i in
      if ltb p r.capacity
      then p
      else if ltb p (r.capacity + r.capacity)
      then p - r.capacity
      else p - r.capacity - r.capacity

  -- The fields after `advance`, without the wrap-around.
  advance_fields :
      (r : RingBuffer A) (s : List A) (n : ℕ)
      → IsValid r
      → n ≤ r.capacity
      → let t = advance (record r { storage = s }) n in
        let p = r.read_pos + (r.filled + n - r.capacity) in
        (t.storage ≡ s)
        × (t.capacity ≡ r.capacity)
        × (t.filled ≡ min (r.filled + n) r.capacity)
        × (t.read_pos ≡ (if ltb p r.capacity then p else p - r.capacity))
        × (t.mutex_held ≡ r.mutex_held)
  unfolding advance
  advance_fields r s n v fits =
      ground (arith, mod_once (r.read_pos + (r.filled + n - r.capacity)) r.capacity)

  place_lem :
      (r : RingBuffer A) (s : List A) (n i : ℕ)
      → IsValid r
      → n ≤ r.capacity
      → length s ≡ r.capacity
      → get_elem? (contents (advance (record r { storage = s }) n)) i
        ≡ (if ltb i (min (r.filled + n) r.capacity) then get_elem? s (place r n i) else none)
  unfolding place
  place_lem r s n i v fits e = ground (
    arith,
    get_elem?-contents (advance (record r { storage = s }) n) i (advance-IsValid r s n v fits e),
    advance_fields r s n v fits,
  )

  -- The samples held before, then the `n` stored, and of these the newest that fit.
  advance-contents :
      (r : RingBuffer A) (xs : List A) (skip n : ℕ) (s : List A)
      → IsValid r
      → n ≤ r.capacity
      → skip + n ≤ length xs
      → IsStored r xs skip n s
      → (i : ℕ) → i < min (r.filled + n) r.capacity
      → get_elem? s (place r n i) ≡ (
          if ltb (i + (r.filled + n - r.capacity)) r.filled
          then get_elem? (contents r) (i + (r.filled + n - r.capacity))
          else get_elem? xs (skip + (i + (r.filled + n - r.capacity) - r.filled)))
  unfolding place
  advance-contents r xs skip n s v fits there st i h =
      ground
        (arith, st.at_index (place r n i), get_elem?-contents r (i + (r.filled + n - r.capacity)))

  advance-newest :
      (r : RingBuffer A) (xs : List A) (count skip n : ℕ) (s : List A)
      → IsValid r
      → n ≤ r.capacity
      → skip + n ≡ count
      → count ≤ length xs
      → (skip ≡ 0) ⊎ (n ≡ r.capacity)
      → IsStored r xs skip n s
      → contents (advance (record r { storage = s }) n)
        ≡ keep_last r.capacity (contents r ++ take count xs)
  advance-newest r xs count skip n s v fits split there whole st =
      let both : List A = contents r ++ take count xs in
      let d : ℕ = length both - r.capacity in
      let size : length both ≡ r.filled + count = omega (
        arith,
        length-append (contents r) (take count xs),
        length-contents r v,
        length-take count xs,
      ) in
      get_elem?_ext _ _ λ i. ground (
        arith,
        size,
        place_lem r s n i v fits st.same_length,
        advance-contents r xs skip n s v fits (omega arith) st i,
        get_elem?-drop d both i,
        get_elem?-append (contents r) (take count xs) (d + i),
        get_elem?-take count xs (d + i - r.filled),
        length-contents r v,
      )

  -- What a successful `Push` has done: `r'` is the buffer afterwards.
  pub record IsPushed (r : RingBuffer A) (xs : List A) (r' : RingBuffer A) : Type 0 where
    pub valid : IsValid r'
    pub same_capacity : r'.capacity ≡ r.capacity
    pub released : r'.mutex_held ≡ false
    pub newest : contents r' ≡ keep_last r.capacity (contents r ++ xs)

  push_held-IsPushed :
      (r : RingBuffer A) (xs : List A) (count skip n : ℕ)
      → IsValid r
      → n ≤ r.capacity
      → skip + n ≡ count
      → count ≤ length xs
      → (skip ≡ 0) ⊎ (n ≡ r.capacity)
      → (r' : RingBuffer A) × (push_held (take_mutex r) xs skip n ≡ some (r', true))
        × IsPushed r (take count xs) r'
  unfolding push_held contents
  push_held-IsPushed r xs count skip n v fits split there whole =
      let q : RingBuffer A = take_mutex r in
      let w : IsValid q = ground arith in
      let (s, e, st) = copy_in-IsStored q xs skip n w fits (omega arith) in
      let t : RingBuffer A = advance (record q { storage = s }) n in
      (
        give_mutex t,
        rw e refl,
        record {
          valid = ground (arith, advance-IsValid q s n w fits st.same_length);
          same_capacity = ground (arith, advance_fields q s n w fits);
          released = refl;
          newest = advance-newest q xs count skip n s w fits split there whole st;
        },
      )

  -- `Push` of samples that are there, with the mutex granted: the buffer holds what it held and
  -- then the new samples, of these the newest that fit its capacity. It stays valid, returns
  -- `true`, touches no memory out of bounds and gives the mutex back.
  pub push-keep_last :
      (r : RingBuffer A) (xs : List A) (count : ℕ)
      → IsValid r
      → 0 < count
      → count < 2 ^ 32
      → count ≤ length xs
      → (r' : RingBuffer A) × (push true (some xs) count r ≡ some (r', true))
        × IsPushed r (take count xs) r'
  unfolding push
  push-keep_last r xs count v pos small there = elim (Bool-cases (ltb r.capacity count)) [
    | inl long ↦
        let skip : ℕ = sub32 count r.capacity in
        let (r', e, done) =
          push_held-IsPushed r xs count skip r.capacity v (omega arith) (ground arith) there
            (inr refl) in
        (r', ground (arith, e), done)
    | inr short ↦
        let (r', e, done) =
          push_held-IsPushed r xs count 0 count v (ground arith) (omega arith) there (inl refl) in
        (r', ground (arith, e), done)
  ]
