-- ===== src/Ring/Pop.antt =====
-- `GetLast` and `Read`: what they copy to `out`, and what the buffer holds afterwards.
use vaani_edge.Base.{
  ℕ, zero, suc, ◌+◌, ◌-◌, ◌≤◌, ◌<◌, ◌≡◌, refl, inl, inr, true, false, List, ◌++◌, some, ◌==◌, ◌%◌,
  arith, length, get_elem?, take, drop, ltb, leb, if◌then◌else◌, min, u32, sub32, splice,
  memcpy-some, length-splice, get_elem?-splice, get_elem?-append, get_elem?-take, get_elem?-drop,
  get_elem?_ext, length-take, length-drop, Bool-cases,
}
use vaani_edge.Ring.{
  RingBuffer, copy_out, get_last_held, read_held, get_last, read, give_mutex, take_mutex,
}
use vaani_edge.Ring.Valid.{IsValid, mod_once}
use vaani_edge.Ring.Contents.{
  contents, keep_last, get_elem?-contents, length-contents, take_mutex-IsValid, contents-take_mutex,
  contents-give_mutex,
}

module _ {A : Type 0} where
  -- The array `w` is `out` with `n` samples of the storage written to its front, from index
  -- `start` on, going round at the capacity.
  record IsCopied (r : RingBuffer A) (out : List A) (start n : ℕ) (w : List A) : Type 0 where
    pub at_index :
        (k : ℕ)
        → get_elem? w k ≡ (
            if ltb k n
            then if ltb (start + k) r.capacity
              then get_elem? r.storage (start + k)
              else get_elem? r.storage (start + k - r.capacity)
            else get_elem? out k)

  copy_out-IsCopied :
      (r : RingBuffer A) (out : List A) (start n : ℕ)
      → IsValid r
      → start < r.capacity
      → n ≤ r.capacity
      → n ≤ length out
      → (w : List A) × (copy_out r out start n ≡ some w) × IsCopied r out start n w
  unfolding copy_out
  copy_out-IsCopied r out start n v inside fits room =
      elim (Bool-cases (leb (u32 (start + n)) cap)) [
        | inl one ↦ (
          splice out 0 store start n,
          ground (arith, memcpy-some out 0 store start n),
          record { at_index = λ k. ground (arith, get_elem?-splice out 0 store start n k) },
        )
        | inr two ↦
            let f : ℕ = cap - start in
            let part : List A = splice out 0 store start f in
            let e : length part ≡ length out = ground (arith, length-splice out 0 store start f) in
            (
              splice part f store 0 (n - f),
              ground (arith, memcpy-some out 0 store start f, memcpy-some part f store 0 (n - f)),
              record {
                at_index = λ k. ground (
                  arith,
                  get_elem?-splice part f store 0 (n - f) k,
                  get_elem?-splice out 0 store start f k,
                );
              },
            )
      ]
    where
      open r use {storage as store, capacity as cap}

  -- Copied from `n` before the write position, these are the newest samples.
  copied-newest :
      (r : RingBuffer A) (out : List A) (start n : ℕ) (w : List A)
      → IsValid r
      → n ≤ r.filled
      → start ≡ (if leb n r.write_pos then r.write_pos - n else r.write_pos + r.capacity - n)
      → IsCopied r out start n w
      → w ≡ keep_last n (contents r) ++ drop n out
  copied-newest r out start n w v fits from c =
      let d : ℕ = length (contents r) - n in
      get_elem?_ext _ _ λ i. ground (
        arith,
        c.at_index i,
        get_elem?-append (keep_last n (contents r)) (drop n out) i,
        length-drop d (contents r),
        length-contents r v,
        get_elem?-drop d (contents r) i,
        get_elem?-contents r (d + i) v,
        get_elem?-drop n out (i - n),
      )

  -- Copied from the read position, these are the oldest samples.
  copied-oldest :
      (r : RingBuffer A) (out : List A) (n : ℕ) (w : List A)
      → IsValid r
      → n ≤ r.filled
      → IsCopied r out r.read_pos n w
      → w ≡ take n (contents r) ++ drop n out
  copied-oldest r out n w v fits c = get_elem?_ext _ _ λ i. ground (
    arith,
    c.at_index i,
    get_elem?-append (take n (contents r)) (drop n out) i,
    length-take n (contents r),
    length-contents r v,
    get_elem?-take n (contents r) i,
    get_elem?-contents r i v,
    get_elem?-drop n out (i - n),
  )

  get_last_held_lem :
      (r : RingBuffer A) (out : List A) (n : ℕ)
      → IsValid r
      → n ≤ r.filled
      → n ≤ length out
      → get_last_held r out n ≡ some (give_mutex r, keep_last n (contents r) ++ drop n out, n)
  unfolding get_last_held
  get_last_held_lem r out n v fits room =
      let start : ℕ = sub32 (u32 (r.write_pos + r.capacity)) n % r.capacity in
      let from : start
          ≡ (if leb n r.write_pos then r.write_pos - n else r.write_pos + r.capacity - n) =
        ground (arith, mod_once (r.write_pos + r.capacity - n) r.capacity) in
      let (w, e, c) = copy_out-IsCopied r out start n v (ground arith) (omega arith) room in
      elim (Bool-cases (n == 0)) [
        | inl nothing ↦ rw nothing (
            ground (
              arith,
              copied-newest r out start n out v fits from (record { at_index = λ k. ground arith }),
            ))
        | inr something ↦
            rw (something, e) (ground (arith, copied-newest r out start n w v fits from c))
      ]

  -- `GetLast` with the mutex granted copies the newest samples, in the order of their arrival: as
  -- many as were asked for, or all that the buffer holds. Nothing but the front of `out` changes.
  pub get_last-keep_last :
      (r : RingBuffer A) (out : List A) (count : ℕ)
      → IsValid r
      → 0 < count
      → min count r.filled ≤ length out
      → get_last true (some out) count r
        ≡ some (
          give_mutex r,
          keep_last (min count r.filled) (contents r) ++ drop (min count r.filled) out,
          min count r.filled,
        )
  unfolding get_last
  get_last-keep_last r out count v pos room = ground (
    arith,
    get_last_held_lem (take_mutex r) out (min count r.filled) (take_mutex-IsValid r v),
    contents-take_mutex r,
  )

  -- What is left after the `n` oldest samples are gone: `r'` is the buffer afterwards.
  pub record IsRead (r : RingBuffer A) (n : ℕ) (r' : RingBuffer A) : Type 0 where
    pub valid : IsValid r'
    pub same_capacity : r'.capacity ≡ r.capacity
    pub released : r'.mutex_held ≡ false
    pub rest : contents r' ≡ drop n (contents r)

  -- `r` with its `n` oldest samples gone.
  abbrev forget : RingBuffer A → ℕ → RingBuffer A
  forget r n =
      give_mutex
        (record r { read_pos = u32 (r.read_pos + n) % r.capacity; filled = sub32 r.filled n })

  forget-IsValid : (r : RingBuffer A) (n : ℕ) → IsValid r → n ≤ r.filled → IsValid (forget r n)
  forget-IsValid r n v fits = ground (arith, mod_once (r.read_pos + n) r.capacity)

  forget-rest :
      (r : RingBuffer A) (n : ℕ)
      → IsValid r
      → n ≤ r.filled
      → contents (forget r n) ≡ drop n (contents r)
  forget-rest r n v fits = get_elem?_ext _ _ λ i. ground (
    arith,
    get_elem?-contents (forget r n) i (forget-IsValid r n v fits),
    get_elem?-drop n (contents r) i,
    get_elem?-contents r (n + i) v,
    mod_once (r.read_pos + n) r.capacity,
  )

  read_held_lem :
      (r : RingBuffer A) (out : List A) (n : ℕ)
      → IsValid r
      → n ≤ r.filled
      → n ≤ length out
      → (r' : RingBuffer A) × (read_held r out n ≡ some (r', take n (contents r) ++ drop n out, n))
        × IsRead r n r'
  unfolding read_held
  read_held_lem r out zero v fits room = (
    give_mutex r,
    refl,
    record {
      valid = ground arith;
      same_capacity = refl;
      released = refl;
      rest = contents-give_mutex r;
    },
  )
  read_held_lem r out (suc m) v fits room =
      let n : ℕ = suc m in
      let (w, e, c) = copy_out-IsCopied r out r.read_pos n v v.read_in (omega arith) room in
      (
        forget r n,
        rw e (ground (arith, copied-oldest r out n w v fits c)),
        record {
          valid = forget-IsValid r n v fits;
          same_capacity = refl;
          released = refl;
          rest = forget-rest r n v fits;
        },
      )

  -- `Read` with the mutex granted removes the oldest samples and copies them to the front of `out`,
  -- in order: as many as were asked for, or all that the buffer holds. The buffer stays valid.
  pub read-take :
      (r : RingBuffer A) (out : List A) (count : ℕ)
      → IsValid r
      → 0 < count
      → min count r.filled ≤ length out
      → (r' : RingBuffer A) × (read true (some out) count r
          ≡ some (
            r',
            take (min count r.filled) (contents r) ++ drop (min count r.filled) out,
            min count r.filled,
          ))
        × IsRead r (min count r.filled) r'
  unfolding read
  read-take r out count v pos room =
      let (r', e, done) =
        read_held_lem (take_mutex r) out (min count r.filled) (take_mutex-IsValid r v) (omega arith)
          room in
      (r', ground (arith, e, contents-take_mutex r), ground (arith, done, contents-take_mutex r))
