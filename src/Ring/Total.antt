-- ===== src/Ring/Total.antt =====
-- `RingBuffer::GetLast` as its callers use it: the mutex may not be granted.
use vaani_edge.Base.{
  ℕ, ◌-◌, ◌≤◌, ◌<◌, ◌≡◌, refl, Bool, true, false, some, List, arith, length, drop, length-append,
  length-drop, min,
}
use vaani_edge.Ring.{RingBuffer, get_last}
use vaani_edge.Ring.Valid.{IsValid}
use vaani_edge.Ring.Contents.{contents, keep_last, length-contents}
use vaani_edge.Ring.Pop.{get_last-keep_last}

-- `GetLast` without the mutex.
pub get_last_refused :
    {A : Type 0} (r : RingBuffer A) (out : List A) (count : ℕ)
    → get_last false (some out) count r ≡ some (r, out, 0)
unfolding get_last
get_last_refused r out count = ground arith

-- `GetLast` into an array that is large enough for the request.
pub get_last_total :
    {A : Type 0} (granted : Bool) (r : RingBuffer A) (out : List A) (count : ℕ)
    → IsValid r
    → 0 < count
    → count ≤ length out
    → (r' : RingBuffer A) × (out' : List A) × (k : ℕ) × (get_last granted (some out) count r
        ≡ some (r', out', k))
      × IsValid r'
      × (length out' ≡ length out)
      × (k ≤ count)
unfolding get_last
get_last_total false r out count v pos room =
    (r, out, 0, get_last_refused r out count, v, refl, omega arith)
get_last_total true r out count v pos room =
    let k : ℕ = min count r.filled in
    (
      _,
      _,
      _,
      get_last-keep_last r out count v pos (ground arith),
      ground arith,
      ground (
        arith,
        length-append (keep_last k (contents r)) (drop k out),
        length-drop k out,
        length-drop (length (contents r) - k) (contents r),
        length-contents r v,
      ),
      ground arith,
    )
