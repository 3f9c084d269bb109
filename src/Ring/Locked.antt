-- ===== src/Ring/Locked.antt =====
-- components/ring_buffer, ring_buffer.cpp: tasks that call `Push`, `GetLast` and `Read` at the same
-- time. A step is one access to the members: an attempt to take the mutex, one memcpy or one
-- assignment behind it, or xSemaphoreGive; the local variables of a call are the task's own.
use vaani_edge.Base.{
  ℕ, ◌+◌, ◌%◌, Bool, true, false, not, ◌||◌, Option, some, List, [], ◌∷◌, ◌++◌, ltb, leb, ◌==◌,
  if◌then◌else◌, ◌>>=◌, u32, sub32, elements, memcpy, min, length,
}
use vaani_edge.Ring.{RingBuffer, take_mutex, give_mutex}
use vaani_edge.Ring.Trace.{Call, push, get_last, read, Reply, pushed, got}

-- The accesses behind the mutex, in the order of the source.
pub data Access : Type 0 where
  clip find_end store_first store_rest move_write move_read : Access
  limit find_start read_start fetch_first fetch_rest drop_read : Access

-- The local variables of a call: how far `samples` has been advanced; `count`; `end` or `start`; and
-- what `out` points to.
pub record Local (A : Type 0) : Type 0 where
  pub skip : ℕ
  pub count : ℕ
  pub place : ℕ
  pub out : List A

-- Where a task stands: outside of the mutex, or behind it in a call of which some accesses are left.
pub data Place (A : Type 0) : Type 0 where
  outside : Place A
  inside : Call A → List Access → Local A → Place A

-- `replies` has the calls that have returned, in this order, with what they returned.
pub record Shared (A : Type 0) : Type 0 where
  pub ring : RingBuffer A
  pub places : ℕ → Place A
  pub calls : List (Call A)
  pub replies : List (Reply A)

-- A task attempts a call, unless it is in one, with which it then goes on.
pub data Event (A : Type 0) : Type 0 where
  attempt : Call A → Event A
  go_on : Event A

module _ {A : Type 0} where
  abbrev pub program : Call A → List Access
  program (push granted xs) =
      clip ∷ find_end ∷ store_first ∷ store_rest ∷ move_write ∷ move_read ∷ []
  program (get_last granted out) = limit ∷ find_start ∷ fetch_first ∷ fetch_rest ∷ []
  program (read granted out) = limit ∷ read_start ∷ fetch_first ∷ fetch_rest ∷ drop_read ∷ []

  abbrev pub samples_of : Call A → List A
  samples_of (push granted xs) = xs
  samples_of _ = []

  abbrev pub locals_of : Call A → Local A
  locals_of (push granted xs) = record { skip = 0; count = length xs; place = 0; out = [] }
  locals_of (get_last granted out) = record { skip = 0; count = length out; place = 0; out = out }
  locals_of (read granted out) = record { skip = 0; count = length out; place = 0; out = out }

  unfoldable pub access : Access → List A → RingBuffer A → Local A → Option (RingBuffer A × Local A)
  access clip xs r l = some (
    r,
    if ltb r.capacity l.count
        then record l { skip = sub32 l.count r.capacity; count = r.capacity }
        else l,
  )
  access find_end xs r l = some (r, record l { place = u32 (r.write_pos + l.count) })
  access store_first xs r l =
      memcpy r.storage r.write_pos xs l.skip
        (elements (if leb l.place r.capacity then l.count else sub32 r.capacity r.write_pos))
      >>= λ storage. some (record r { storage = storage }, l)
  access store_rest xs r l =
      if leb l.place r.capacity
      then some (r, l)
      else (memcpy r.storage 0 xs (l.skip + sub32 r.capacity r.write_pos)
            (elements (sub32 l.count (sub32 r.capacity r.write_pos)))
          >>= λ storage. some (record r { storage = storage }, l))
  access move_write xs r l = some (record r { write_pos = l.place % r.capacity }, l)
  access move_read xs r l =
      let total = u32 (r.filled + l.count) in
      some (
        if ltb r.capacity total
            then record r {
              read_pos = u32 (r.read_pos + sub32 total r.capacity) % r.capacity;
              filled = r.capacity;
            }
            else record r { filled = total },
        l,
      )
  access limit xs r l = some (r, record l { count = min l.count r.filled })
  access find_start xs r l =
      some (r, record l { place = sub32 (u32 (r.write_pos + r.capacity)) l.count % r.capacity })
  access read_start xs r l = some (r, record l { place = r.read_pos })
  access fetch_first xs r l =
      if l.count == 0
      then some (r, l)
      else (memcpy l.out 0 r.storage l.place (
            elements (
              if leb (u32 (l.place + l.count)) r.capacity
              then l.count
              else sub32 r.capacity l.place))
          >>= λ out. some (r, record l { out = out }))
  access fetch_rest xs r l =
      if (l.count == 0) || leb (u32 (l.place + l.count)) r.capacity
      then some (r, l)
      else (memcpy l.out (sub32 r.capacity l.place) r.storage 0
            (elements (sub32 l.count (sub32 r.capacity l.place)))
          >>= λ out. some (r, record l { out = out }))
  access drop_read xs r l = some (
    if l.count == 0 then r else record r {
      read_pos = u32 (r.read_pos + l.count) % r.capacity;
      filled = sub32 r.filled l.count;
    },
    l,
  )

  -- What a call returns behind the mutex, and without it.
  abbrev pub reply_of : Call A → Local A → Reply A
  reply_of (push granted xs) l = pushed true
  reply_of (get_last granted out) l = got l.out l.count
  reply_of (read granted out) l = got l.out l.count

  abbrev pub refusal : Call A → Reply A
  refusal (push granted xs) = pushed false
  refusal (get_last granted out) = got out 0
  refusal (read granted out) = got out 0

  -- What xSemaphoreTake answers in the end.
  abbrev pub is_granted : Call A → Bool
  is_granted (push granted xs) = granted
  is_granted (get_last granted out) = granted
  is_granted (read granted out) = granted

  -- The early return before the mutex.
  abbrev pub is_void : RingBuffer A → Call A → Bool
  is_void r c = ((locals_of c).count == 0) || (r.capacity == 0)

  abbrev pub set_place : (ℕ → Place A) → ℕ → Place A → ℕ → Place A
  set_place places i p j = if i == j then p else places j

  -- One step of task `i`. An attempt that is to be granted waits while the mutex is held.
  unfoldable pub step_at : Place A → ℕ → Event A → Shared A → Option (Shared A)
  unfolding access
  step_at outside i go_on s = some s
  step_at outside i (attempt c) s =
      if is_void s.ring c || not (is_granted c)
      then some (record s { calls = s.calls ++ (c ∷ []); replies = s.replies ++ (refusal c ∷ []) })
      else if s.ring.mutex_held
      then some s
      else some (record s {
        ring = take_mutex s.ring;
        places = set_place s.places i (inside c (program c) (locals_of c));
      })
  step_at (inside c [] l) i e s = some (record s {
    ring = give_mutex s.ring;
    places = set_place s.places i outside;
    calls = s.calls ++ (c ∷ []);
    replies = s.replies ++ (reply_of c l ∷ []);
  })
  step_at (inside c (m ∷ ms) l) i e s = access m (samples_of c) s.ring l >>= λ (r, l').
      some (record s { ring = r; places = set_place s.places i (inside c ms l') })

  -- A schedule: which task goes next, and with what.
  unfoldable pub schedule : List (ℕ × Event A) → Shared A → Option (Shared A)
  unfolding step_at
  schedule [] s = some s
  schedule ((i, e) ∷ es) s = step_at (s.places i) i e s >>= λ t. schedule es t

  -- Before any call.
  abbrev pub unused : RingBuffer A → Shared A
  unused r = record { ring = r; places = λ i. outside; calls = []; replies = [] }
