-- ===== src/Ring/Trace.antt =====
-- A `RingBuffer` against its abstract view, a sliding window on the stream of samples: no sequence
-- of calls by the audio, KWS and streaming tasks tells the two apart, whichever attempts to take
-- the mutex time out.
use vaani_edge.Base.{
  ℕ, ◌<◌, ◌^◌, ◌≡◌, refl, Bool, true, false, ◌&&◌, List, [], ◌∷◌, ◌++◌, Option, some, arith, length,
  take, drop, ltb, if◌then◌else◌, min, ◌>>=◌, ◌⊎◌,
}
use vaani_edge.Ring.{RingBuffer, give_mutex}
use vaani_edge.Ring
use vaani_edge.Ring.Valid.{IsValid}
use vaani_edge.Ring.Contents.{contents, keep_last, length-contents, contents-give_mutex}
use vaani_edge.Ring.Push.{push-keep_last}
use vaani_edge.Ring.Pop.{get_last-keep_last, read-take}

-- With the mutex not granted in time, nothing asked for or no capacity, `Push`, `GetLast` and
-- `Read` report nothing done, and leave the buffer and the caller's array as they were.
pub refused_unchanged :
    {A : Type 0} (granted : Bool) (xs : List A) (count : ℕ) (r : RingBuffer A)
    → (granted ≡ false) ⊎ (count ≡ 0) ⊎ (r.capacity ≡ 0)
    → (Ring.push granted (some xs) count r ≡ some (r, false))
      × (Ring.get_last granted (some xs) count r ≡ some (r, xs, 0))
      × (Ring.read granted (some xs) count r ≡ some (r, xs, 0))
unfolding Ring.push Ring.get_last Ring.read
refused_unchanged granted xs count r h = ground arith

-- The calls, each with what its attempt to take the mutex answers. The size of an array is the
-- count that the call passes.
pub data Call (A : Type 0) : Type 0 where
  push : Bool → List A → Call A
  get_last : Bool → List A → Call A
  read : Bool → List A → Call A

pub data Reply (A : Type 0) : Type 0 where
  pushed : Bool → Reply A
  got : List A → ℕ → Reply A

module _ {A : Type 0} where
  unfoldable pub step : RingBuffer A → Call A → Option (RingBuffer A × Reply A)
  step r (push granted xs) =
      Ring.push granted (some xs) (length xs) r >>= λ (r', done). some (r', pushed done)
  step r (get_last granted out) =
      Ring.get_last granted (some out) (length out) r >>= λ (r', w, n). some (r', got w n)
  step r (read granted out) =
      Ring.read granted (some out) (length out) r >>= λ (r', w, n). some (r', got w n)

  -- `none` if some call touches memory out of bounds.
  unfoldable pub run : RingBuffer A → List (Call A) → Option (RingBuffer A × List (Reply A))
  run r [] = some (r, [])
  run r (c ∷ cs) = do
    (r', reply) ← step r c
    (r'', replies) ← run r' cs
    some (r'', reply ∷ replies)

  -- The same calls on the window: the list of the samples that it shows, oldest first.
  unfoldable pub window_step : ℕ → List A → Call A → List A × Reply A
  window_step cap w (push granted xs) =
      if granted && ltb 0 (length xs)
      then (keep_last cap (w ++ xs), pushed true)
      else (w, pushed false)
  window_step cap w (get_last granted out) =
      let n = min (length out) (length w) in
      if granted && ltb 0 (length out)
      then (w, got (keep_last n w ++ drop n out) n)
      else (w, got out 0)
  window_step cap w (read granted out) =
      let n = min (length out) (length w) in
      if granted && ltb 0 (length out)
      then (drop n w, got (take n w ++ drop n out) n)
      else (w, got out 0)

  unfoldable pub window_run : ℕ → List A → List (Call A) → List A × List (Reply A)
  window_run cap w [] = (w, [])
  window_run cap w (c ∷ cs) =
      let (w', reply) = window_step cap w c in
      let (w'', replies) = window_run cap w' cs in (w'', reply ∷ replies)

  -- A count is a size_t.
  abbrev pub IsSized : Call A → Type 0
  IsSized (push granted xs) = length xs < 2 ^ 32
  IsSized (get_last granted out) = length out < 2 ^ 32
  IsSized (read granted out) = length out < 2 ^ 32

  abbrev pub AllSized : List (Call A) → Type 0
  AllSized [] = Unit {0}
  AllSized (c ∷ cs) = IsSized c × AllSized cs

  take_all : (xs : List A) → take (length xs) xs ≡ xs
  take_all [] = refl
  take_all (x ∷ xs) = ground (arith, take_all xs)

  pub step-window_step :
      (r : RingBuffer A) (c : Call A)
      → IsValid r
      → IsSized c
      → let (w, reply) = window_step r.capacity (contents r) c in
        (r' : RingBuffer A) × (step r c ≡ some (r', reply))
        × IsValid r'
        × (r'.capacity ≡ r.capacity)
        × (contents r' ≡ w)
  unfolding step window_step
  step-window_step r (push false xs) v size =
      (r, ground (arith, refused_unchanged false xs (length xs) r), v, refl, refl)
  step-window_step r (push true []) v size =
      (r, ground (arith, refused_unchanged true [] 0 r), v, refl, refl)
  step-window_step r (push true (x ∷ xs)) v size =
      let ys : List A = x ∷ xs in
      let (r', e, done) = push-keep_last r ys (length ys) v (omega arith) size (omega arith) in
      (
        r',
        rw e (ground arith),
        done.valid,
        done.same_capacity,
        ground (arith, done.newest, take_all ys),
      )
  step-window_step r (get_last false out) v size =
      (r, ground (arith, refused_unchanged false out (length out) r), v, refl, refl)
  step-window_step r (get_last true []) v size =
      (r, ground (arith, refused_unchanged true [] 0 r), v, refl, refl)
  step-window_step r (get_last true (x ∷ xs)) v size =
      let out : List A = x ∷ xs in
      let n : ℕ = length out in
      (
        give_mutex r,
        rw (get_last-keep_last r out n v (omega arith) (omega arith))
            (ground (arith, length-contents r v)),
        ground arith,
        refl,
        ground (arith, contents-give_mutex r),
      )
  step-window_step r (read false out) v size =
      (r, ground (arith, refused_unchanged false out (length out) r), v, refl, refl)
  step-window_step r (read true []) v size =
      (r, ground (arith, refused_unchanged true [] 0 r), v, refl, refl)
  step-window_step r (read true (x ∷ xs)) v size =
      let out : List A = x ∷ xs in
      let (r', e, done) = read-take r out (length out) v (omega arith) (omega arith) in
      (
        r',
        rw e (ground (arith, length-contents r v)),
        done.valid,
        done.same_capacity,
        ground (arith, done.rest, length-contents r v),
      )

  -- From a valid buffer every sequence of calls runs with no access out of bounds, gives the
  -- replies of the window that shows the buffer's contents, and leaves a valid buffer with the
  -- contents of that window.
  pub run-window_run :
      (r : RingBuffer A) (cs : List (Call A))
      → IsValid r
      → AllSized cs
      → let (w, replies) = window_run r.capacity (contents r) cs in
        (r' : RingBuffer A) × (run r cs ≡ some (r', replies)) × IsValid r' × (contents r' ≡ w)
  unfolding run window_run
  run-window_run r [] v sizes = (r, refl, v, refl)
  run-window_run r (c ∷ cs) v sizes =
      let (r', e, v', same, shown) = step-window_step r c v sizes.0 in
      let (r'', e', v'', shown') = run-window_run r' cs v' sizes.1 in
      (r'', rw (e, e', same, shown) refl, v'', rw (shown', same, shown) refl)
