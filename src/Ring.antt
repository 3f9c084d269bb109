-- ===== src/Ring.antt =====
-- components/ring_buffer: the audio ring buffer, `class RingBuffer`. A method returns the new
-- buffer beside its result, and `none` where it would read or write outside an array. A pointer
-- argument is `none` for `nullptr`. What `xSemaphoreTake` answers is the argument `granted`.
-- Samples are only moved, so the buffer is generic in them.
pub mod Valid
pub mod Contents
pub mod Push
pub mod Pop
pub mod Trace
pub mod Total
pub mod Stream
pub mod Locked
pub mod Alone
pub mod Holder
pub mod Steps
pub mod Atomic
mod Tests
mod LockedTests
use vaani_edge.Base.{
  ℕ, ◌+◌, ◌%◌, Bool, true, false, ◌||◌, Option, none, some, List, [], ltb, leb, ◌==◌, if◌then◌else◌,
  ◌>>=◌, u32, sub32, elements, memcpy, min,
}

-- `mutex_held` is whether a task holds `mutex_`.
pub record RingBuffer (A : Type 0) : Type 0 where
  pub storage : List A
  pub capacity : ℕ
  pub write_pos : ℕ
  pub filled : ℕ
  pub read_pos : ℕ
  pub mutex_held : Bool

-- What `GetLast` and `Read` return: the buffer, what `out` holds afterwards, and the count.
abbrev pub Output : Type 0 → Type 0
Output A = RingBuffer A × List A × ℕ

module _ {A : Type 0} where
  pub init : List A → ℕ → RingBuffer A
  init storage capacity_samples = record {
    storage = storage;
    capacity = capacity_samples;
    write_pos = 0;
    filled = 0;
    read_pos = 0;
    mutex_held = false;
  }

  -- xSemaphoreTake that returned pdTRUE, and xSemaphoreGive.
  abbrev pub take_mutex : RingBuffer A → RingBuffer A
  take_mutex r = record r { mutex_held = true }

  abbrev pub give_mutex : RingBuffer A → RingBuffer A
  give_mutex r = record r { mutex_held = false }

  -- The copy of `count` samples from `samples + skip` to `write_pos_`, in one part or in two.
  unfoldable pub copy_in : RingBuffer A → List A → ℕ → ℕ → Option (List A)
  copy_in r samples skip count =
      if leb (u32 (r.write_pos + count)) r.capacity
      then memcpy r.storage r.write_pos samples skip (elements count)
      else do
        let first_part = sub32 r.capacity r.write_pos
        part ← memcpy r.storage r.write_pos samples skip (elements first_part)
        memcpy part 0 samples (skip + first_part) (elements (sub32 count first_part))

  -- The new positions after `count` samples have been stored.
  unfoldable pub advance : RingBuffer A → ℕ → RingBuffer A
  advance r count =
      let s = record r { write_pos = u32 (r.write_pos + count) % r.capacity } in
      let total = u32 (r.filled + count) in
      if ltb r.capacity total
      then record s {
        read_pos = u32 (r.read_pos + sub32 total r.capacity) % r.capacity;
        filled = r.capacity;
      }
      else record s { filled = total }

  -- `Push` with the mutex held.
  unfoldable pub push_held : RingBuffer A → List A → ℕ → ℕ → Option (RingBuffer A × Bool)
  push_held r samples skip count = copy_in r samples skip count >>= λ stored.
      some (give_mutex (advance (record r { storage = stored }) count), true)

  pub push : Bool → Option (List A) → ℕ → RingBuffer A → Option (RingBuffer A × Bool)
  push granted none count r = some (r, false)
  push granted (some samples) count r =
      if count == 0 || r.capacity == 0
      then some (r, false)
      else if granted
      then if ltb r.capacity count
        then push_held (take_mutex r) samples (sub32 count r.capacity) r.capacity
        else push_held (take_mutex r) samples 0 count
      else some (r, false)

  -- The copy of `count` samples from index `start` of the storage to `out`, in one part or in two.
  unfoldable pub copy_out : RingBuffer A → List A → ℕ → ℕ → Option (List A)
  copy_out r out start count =
      if leb (u32 (start + count)) r.capacity
      then memcpy out 0 r.storage start (elements count)
      else do
        let first_part = sub32 r.capacity start
        part ← memcpy out 0 r.storage start (elements first_part)
        memcpy part first_part r.storage 0 (elements (sub32 count first_part))

  -- The bodies of `GetLast` and `Read` with the mutex held.
  unfoldable pub get_last_held : RingBuffer A → List A → ℕ → Option (Output A)
  get_last_held r out count =
      if count == 0
      then some (give_mutex r, out, 0)
      else copy_out r out (sub32 (u32 (r.write_pos + r.capacity)) count % r.capacity) count
        >>= λ written. some (give_mutex r, written, count)

  unfoldable pub read_held : RingBuffer A → List A → ℕ → Option (Output A)
  read_held r out count =
      if count == 0
      then some (give_mutex r, out, 0)
      else copy_out r out r.read_pos count >>= λ written. some (
        give_mutex (record r {
          read_pos = u32 (r.read_pos + count) % r.capacity;
          filled = sub32 r.filled count;
        }),
        written,
        count,
      )

  pub get_last : Bool → Option (List A) → ℕ → RingBuffer A → Option (Output A)
  get_last granted none count r = some (r, [], 0)
  get_last granted (some out) count r =
      if count == 0 || r.capacity == 0
      then some (r, out, 0)
      else if granted
      then get_last_held (take_mutex r) out (min count r.filled)
      else some (r, out, 0)

  pub read : Bool → Option (List A) → ℕ → RingBuffer A → Option (Output A)
  read granted none count r = some (r, [], 0)
  read granted (some out) count r =
      if count == 0 || r.capacity == 0
      then some (r, out, 0)
      else if granted
      then read_held (take_mutex r) out (min count r.filled)
      else some (r, out, 0)
