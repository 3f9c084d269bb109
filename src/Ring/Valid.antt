-- ===== src/Ring/Valid.antt =====
-- The representation invariant of `RingBuffer`, and the one reduction modulo the capacity.
use native.Mathlib.Nat.{mod-eq_of_lt, mod-eq-sub-mod}
use vaani_edge.Base.{
  ℕ, ◌+◌, ◌-◌, ◌%◌, ◌^◌, ◌≤◌, ◌<◌, ◌≡◌, ◌⊎◌, List, arith, length, ltb, if◌then◌else◌,
}
use vaani_edge.Ring.{RingBuffer, init}

-- The storage has the stated capacity, all positions lie inside it, and the write position is the
-- read position moved on by the number of samples held.
pub record IsValid {A : Type 0} (r : RingBuffer A) : Type 0 where
  pub nonempty : 0 < r.capacity
  pub small : r.capacity < 2 ^ 31
  pub storage_full : length r.storage ≡ r.capacity
  pub write_in : r.write_pos < r.capacity
  pub read_in : r.read_pos < r.capacity
  pub filled_le : r.filled ≤ r.capacity
  pub in_step :
      (r.read_pos + r.filled ≡ r.write_pos) ⊎ (r.read_pos + r.filled ≡ r.write_pos + r.capacity)

pub mod_once : (x cap : ℕ) → 0 < cap → x < cap + cap → x % cap ≡ (if ltb x cap then x else x - cap)
mod_once x cap p h = ground (
  arith,
  mod-eq_of_lt {n = x} {m = cap},
  mod-eq-sub-mod {n = x} {m = cap},
  mod-eq_of_lt {n = x - cap} {m = cap},
)

pub init-IsValid :
    {A : Type 0} (storage : List A)
    → 0 < length storage
    → length storage < 2 ^ 31
    → IsValid (init storage (length storage))
unfolding init
init-IsValid storage p q = ground arith
