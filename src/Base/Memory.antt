-- ===== src/Base/Memory.antt =====
-- Blocks of memory: `std::memcpy` between arrays, in elements of the array's own type. A copy that
-- would leave either array is undefined behaviour in C++, and is `none` here.
use Prim.Native.Nat.{ℕ, ◌+◌, ◌-◌, ◌≤◌, ◌*◌, ◌/◌, ◌%◌, ◌^◌, zero, suc, ◌<◌}
use mathlib.Core.Path.{◌≡◌, refl, ap}
use mathlib.Core.Bool.{◌&&◌}
use mathlib.Core.List.{List, [], ◌∷◌, ◌++◌}
use mathlib.Core.Option.{Option, none, some}
use native.Mathlib.Omega.{arith}
use vaani_edge.Base.Tests.{ltb, leb, if◌then◌else◌, ◌>>=◌}
use vaani_edge.Base.Lists.{
  length, take, drop, get_elem?, length-append, length-take, length-drop, get_elem?-append,
  get_elem?-take, get_elem?-drop,
}

-- uint32_t, and size_t on the ESP32-S3: arithmetic is modulo 2 ^ 32.
abbrev pub u32 : ℕ → ℕ
u32 n = n % 2 ^ 32

-- a - b on size_t wraps.
abbrev pub sub32 : ℕ → ℕ → ℕ
sub32 a b = (a + 2 ^ 32 - b) % 2 ^ 32

-- The samples that memcpy moves when it is given n * sizeof(int16_t) bytes.
abbrev pub elements : ℕ → ℕ
elements n = u32 (n * 2) / 2

module _ {A : Type 0} where
  -- `dst` with the `n` elements of `src` from `j` on put at `i`.
  unfoldable pub splice : List A → ℕ → List A → ℕ → ℕ → List A
  splice dst i src j n = take i dst ++ (take n (drop j src) ++ drop (i + n) dst)

  -- memcpy(dst + i, src + j, n * sizeof(element))
  unfoldable pub memcpy : List A → ℕ → List A → ℕ → ℕ → Option (List A)
  memcpy dst i src j n =
      if leb (i + n) (length dst) && leb (j + n) (length src)
      then some (splice dst i src j n)
      else none

  -- dst[i] = x
  unfoldable pub put : List A → ℕ → A → Option (List A)
  put [] i x = none
  put (y ∷ ys) zero x = some (x ∷ ys)
  put (y ∷ ys) (suc i) x = put ys i x >>= λ zs. some (y ∷ zs)

  pub put_total :
      (xs : List A) (i : ℕ) (b : A)
      → i < length xs
      → (ys : List A) × (put xs i b ≡ some ys) × (length ys ≡ length xs) × (get_elem? ys i ≡ some b)
  unfolding put
  put_total [] i b h = absurd (omega arith)
  put_total (x ∷ xs) zero b h = (b ∷ xs, refl, refl, refl)
  put_total (x ∷ xs) (suc i) b h =
      let (ys, e, l, g) = put_total xs i b (omega arith) in (x ∷ ys, rw e refl, ap suc l, g)

  pub memcpy-some :
      (dst : List A) (i : ℕ) (src : List A) (j n : ℕ)
      → i + n ≤ length dst
      → j + n ≤ length src
      → memcpy dst i src j n ≡ some (splice dst i src j n)
  unfolding memcpy
  memcpy-some dst i src j n p q = ground arith

  pub length-splice :
      (dst : List A) (i : ℕ) (src : List A) (j n : ℕ)
      → i + n ≤ length dst
      → j + n ≤ length src
      → length (splice dst i src j n) ≡ length dst
  unfolding splice
  length-splice dst i src j n p q = omega (
    arith,
    length-append (take i dst) (take n (drop j src) ++ drop (i + n) dst),
    length-append (take n (drop j src)) (drop (i + n) dst),
    length-take i dst,
    length-take n (drop j src),
    length-drop j src,
    length-drop (i + n) dst,
  )

  pub get_elem?-splice :
      (dst : List A) (i : ℕ) (src : List A) (j n k : ℕ)
      → i + n ≤ length dst
      → j + n ≤ length src
      → get_elem? (splice dst i src j n) k
        ≡ (if leb i k && ltb k (i + n) then get_elem? src (j + (k - i)) else get_elem? dst k)
  unfolding splice
  get_elem?-splice dst i src j n k p q = ground (
    arith,
    get_elem?-append (take i dst) (take n (drop j src) ++ drop (i + n) dst) k,
    get_elem?-append (take n (drop j src)) (drop (i + n) dst) (k - i),
    get_elem?-take i dst k,
    get_elem?-take n (drop j src) (k - i),
    get_elem?-drop j src (k - i),
    get_elem?-drop (i + n) dst (k - i - n),
    length-take i dst,
    length-take n (drop j src),
    length-drop j src,
  )
