-- ===== src/Ring/Contents.antt =====
-- The samples that a `RingBuffer` holds, oldest first, and the abstract view: a window on the
-- stream of samples that keeps the newest ones.
use vaani_edge.Base.{
  ℕ, ◌+◌, ◌-◌, ◌≡◌, refl, List, ◌++◌, none, arith, length, get_elem?, take, drop, ltb,
  if◌then◌else◌, length-append, length-take, length-drop, get_elem?-append, get_elem?-take,
  get_elem?-drop,
}
use vaani_edge.Ring.{RingBuffer, take_mutex, give_mutex}
use vaani_edge.Ring.Valid.{IsValid}

-- The newest `n` of a list.
abbrev pub keep_last : {A : Type 0} → ℕ → List A → List A
keep_last n xs = drop (length xs - n) xs

module _ {A : Type 0} where
  unfoldable pub contents : RingBuffer A → List A
  contents r = take r.filled (drop r.read_pos (r.storage ++ r.storage))

  pub length-contents : (r : RingBuffer A) → IsValid r → length (contents r) ≡ r.filled
  unfolding contents
  length-contents r v = omega (
    arith,
    length-take r.filled (drop r.read_pos (r.storage ++ r.storage)),
    length-drop r.read_pos (r.storage ++ r.storage),
    length-append r.storage r.storage,
  )

  -- The i-th oldest sample stands `i` places after the read position, going round at the capacity.
  pub get_elem?-contents :
      (r : RingBuffer A) (i : ℕ)
      → IsValid r
      → get_elem? (contents r) i ≡ (
          if ltb i r.filled
          then if ltb (r.read_pos + i) r.capacity
            then get_elem? r.storage (r.read_pos + i)
            else get_elem? r.storage (r.read_pos + i - r.capacity)
          else none)
  unfolding contents
  get_elem?-contents r i v = ground (
    arith,
    get_elem?-take r.filled (drop r.read_pos (r.storage ++ r.storage)) i,
    get_elem?-drop r.read_pos (r.storage ++ r.storage) i,
    get_elem?-append r.storage r.storage (r.read_pos + i),
  )

  pub take_mutex-IsValid : (r : RingBuffer A) → IsValid r → IsValid (take_mutex r)
  take_mutex-IsValid r v = ground arith

  pub contents-take_mutex : (r : RingBuffer A) → contents (take_mutex r) ≡ contents r
  unfolding contents
  contents-take_mutex r = refl

  pub contents-give_mutex : (r : RingBuffer A) → contents (give_mutex r) ≡ contents r
  unfolding contents
  contents-give_mutex r = refl
