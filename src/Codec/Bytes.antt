-- ===== src/Codec/Bytes.antt =====
-- The big-endian integers of the header: the bytes that are written, and that they read back.
use vaani_edge.Base.{
  put, ℕ, zero, suc, ◌+◌, ◌-◌, ◌*◌, ◌/◌, ◌%◌, ◌^◌, ◌≤◌, ◌<◌, ◌≡◌, refl, ap, ◌∙◌, some, List, [],
  ◌∷◌, ◌++◌, arith, get_elem?, drop, length, append_assoc, append-nil, length-append, memcpy,
  memcpy-some, bit_and, bit_or, bit_or-shifted, bit_and_byte, get_elem?-append, get_elem?_ext,
  get_elem?-splice, get_elem?-drop, length-drop,
}
use vaani_edge.Codec.{
  write_u32_be, read_u32_be, write_u64_from, write_u64_be, read_u64_from, read_u64_be,
}

-- `out` with its front overwritten by `bs`.
abbrev pub fronted : List ℕ → List ℕ → List ℕ
fronted bs out = bs ++ drop (length bs) out

put-fronted :
    (out bs : List ℕ) (b : ℕ)
    → length bs < length out
    → put (fronted bs out) (length bs) b ≡ some (fronted (bs ++ (b ∷ [])) out)
unfolding put
put-fronted [] [] b h = absurd (omega arith)
put-fronted (x ∷ out) [] b h = refl
put-fronted [] (c ∷ bs) b h = absurd (omega arith)
put-fronted (x ∷ out) (c ∷ bs) b h = rw (put-fronted out bs b (omega arith)) refl

-- The same, with the index as the code writes it.
pub put_at :
    (out bs : List ℕ) (i b : ℕ)
    → length bs ≡ i
    → i < length out
    → put (fronted bs out) i b ≡ some (fronted (bs ++ (b ∷ [])) out)
put_at out bs i b e h = rw (← e) (put-fronted out bs b (omega arith))

pub length-fronted :
    (bs out : List ℕ) → length bs ≤ length out → length (fronted bs out) ≡ length out
length-fronted bs out h =
    omega (arith, length-append bs (drop (length bs) out), length-drop (length bs) out)

-- A copy behind what has been written.
pub memcpy_at :
    (out bs src : List ℕ) (i n : ℕ)
    → length bs ≡ i
    → length src ≡ n
    → i + n ≤ length out
    → memcpy (fronted bs out) i src 0 n ≡ some (fronted (bs ++ src) out)
memcpy_at out bs src i n e f h =
    rw (memcpy-some (fronted bs out) i src 0 n (omega (arith, length-fronted bs out)) (omega arith))
      (ap some (
        get_elem?_ext _ _ λ k. ground (
          arith,
          get_elem?-splice (fronted bs out) i src 0 n k,
          length-fronted bs out,
          get_elem?-append bs (drop (length bs) out) k,
          get_elem?-append (bs ++ src) (drop (length (bs ++ src)) out) k,
          get_elem?-append bs src k,
          length-append bs src,
          get_elem?-drop (length bs) out (k - length bs),
          get_elem?-drop (length (bs ++ src)) out (k - length (bs ++ src)),
        )))

unfoldable pub u32_bytes : ℕ → List ℕ
u32_bytes v = v / 2 ^ 24 % 256 ∷ v / 2 ^ 16 % 256 ∷ v / 2 ^ 8 % 256 ∷ v % 256 ∷ []

pub write_u32_at :
    (out bs : List ℕ) (i v : ℕ)
    → length bs ≡ i
    → i + 4 ≤ length out
    → write_u32_be (fronted bs out) i v ≡ some (fronted (bs ++ u32_bytes v) out)
unfolding write_u32_be u32_bytes
write_u32_at out bs i v e h =
    let b0 : ℕ = bit_and (v / 2 ^ 24) 0xff in
    let b1 : ℕ = bit_and (v / 2 ^ 16) 0xff in
    let b2 : ℕ = bit_and (v / 2 ^ 8) 0xff in
    let b3 : ℕ = bit_and v 0xff in
    let bs1 : List ℕ = bs ++ (b0 ∷ []) in
    let bs2 : List ℕ = bs1 ++ (b1 ∷ []) in
    let bs3 : List ℕ = bs2 ++ (b2 ∷ []) in
    rw
      (
        put_at out bs i b0 e (omega arith),
        put_at out bs1 (i + 1) b1 (omega (arith, length-append bs (b0 ∷ []))) (omega arith),
        put_at out bs2 (i + 2) b2
            (omega (arith, length-append bs (b0 ∷ []), length-append bs1 (b1 ∷ []))) (omega arith),
        put_at out bs3 (i + 3) b3
            (omega (
              arith,
              length-append bs (b0 ∷ []),
              length-append bs1 (b1 ∷ []),
              length-append bs2 (b2 ∷ []),
            ))
            (omega arith),
      )
      (simp (append_assoc, bit_and_byte))

-- The bytes of an integer on 64 bits, from the `i`-th on.
unfoldable pub u64_bytes : ℕ → ℕ → ℕ → List ℕ
u64_bytes zero i v = []
u64_bytes (suc n) i v = v / 2 ^ (56 - i * 8) % 256 ∷ u64_bytes n (i + 1) v

pub length-u64_bytes : (n i v : ℕ) → length (u64_bytes n i v) ≡ n
unfolding u64_bytes
length-u64_bytes zero i v = refl
length-u64_bytes (suc n) i v = ap suc (length-u64_bytes n (i + 1) v)

write_u64_from_at :
    (out bs : List ℕ) (at n i v : ℕ)
    → length bs ≡ at + i
    → at + i + n ≤ length out
    → write_u64_from n i (fronted bs out) at v ≡ some (fronted (bs ++ u64_bytes n i v) out)
unfolding write_u64_from u64_bytes
write_u64_from_at out bs at zero i v e h = rw append-nil refl
write_u64_from_at out bs at (suc n) i v e h =
    let b : ℕ = bit_and (v / 2 ^ (56 - i * 8)) 0xff in
    rw
      (
        put_at out bs (at + i) b e (omega arith),
        write_u64_from_at out (bs ++ (b ∷ [])) at n (i + 1) v
            (omega (arith, length-append bs (b ∷ []))) (omega arith),
      )
      (simp (append_assoc, bit_and_byte))

pub write_u64_at :
    (out bs : List ℕ) (i v : ℕ)
    → length bs ≡ i
    → i + 8 ≤ length out
    → write_u64_be (fronted bs out) i v ≡ some (fronted (bs ++ u64_bytes 8 0 v) out)
unfolding write_u64_be
write_u64_at out bs i v e h = write_u64_from_at out bs i 8 0 v (omega arith) (omega arith)

get_behind :
    (ws xs : List ℕ) (i j : ℕ) → length ws ≡ i → get_elem? (ws ++ xs) (i + j) ≡ get_elem? xs j
get_behind ws xs i j e = ground (arith, get_elem?-append ws xs (i + j))

or_byte : (q r : ℕ) → r < 256 → bit_or (q * 256) r ≡ q * 256 + r
or_byte q r h = bit_or-shifted 8 q r h

or_bytes :
    (b0 b1 b2 b3 : ℕ)
    → b1 < 256
    → b2 < 256
    → b3 < 256
    → bit_or (bit_or (bit_or (b0 * 2 ^ 24) (b1 * 2 ^ 16)) (b2 * 2 ^ 8)) b3
      ≡ b0 * 2 ^ 24 + b1 * 2 ^ 16 + b2 * 2 ^ 8 + b3
or_bytes b0 b1 b2 b3 h1 h2 h3 =
    let e1 : bit_or (b0 * 2 ^ 24) (b1 * 2 ^ 16) ≡ (b0 * 2 ^ 8 + b1) * 2 ^ 16 =
      omega (arith, bit_or-shifted 24 b0 (b1 * 2 ^ 16) (omega arith)) in
    let e2 : bit_or ((b0 * 2 ^ 8 + b1) * 2 ^ 16) (b2 * 2 ^ 8)
        ≡ ((b0 * 2 ^ 8 + b1) * 2 ^ 8 + b2) * 2 ^ 8 =
      omega (arith, bit_or-shifted 16 (b0 * 2 ^ 8 + b1) (b2 * 2 ^ 8) (omega arith)) in
    rw (e1, e2, bit_or-shifted 8 ((b0 * 2 ^ 8 + b1) * 2 ^ 8 + b2) b3 h3) (omega arith)

-- An integer that fits reads back from its bytes, wherever they stand.
pub read_u32_at :
    (ws ys : List ℕ) (i v : ℕ)
    → length ws ≡ i
    → v < 2 ^ 32
    → read_u32_be (ws ++ (u32_bytes v ++ ys)) i ≡ some v
unfolding read_u32_be u32_bytes
read_u32_at ws ys i v e h =
    let b0 : ℕ = v / 2 ^ 24 % 256 in
    let b1 : ℕ = v / 2 ^ 16 % 256 in
    let b2 : ℕ = v / 2 ^ 8 % 256 in
    let b3 : ℕ = v % 256 in
    let xs : List ℕ = b0 ∷ b1 ∷ b2 ∷ b3 ∷ ys in
    let first : get_elem? (ws ++ xs) i ≡ some b0 = ground (arith, get_behind ws xs i 0 e) in
    rw (first, get_behind ws xs i 1 e, get_behind ws xs i 2 e, get_behind ws xs i 3 e)
      (ap some (or_bytes b0 b1 b2 b3 (omega arith) (omega arith) (omega arith) ∙ omega arith))

shift_byte : (k v : ℕ) → k < 8 → v / 2 ^ (8 * suc k) ≡ v / 2 ^ (8 * k) / 256
shift_byte zero v h = omega arith
shift_byte (suc zero) v h = omega arith
shift_byte (suc (suc zero)) v h = omega arith
shift_byte (suc (suc (suc zero))) v h = omega arith
shift_byte (suc (suc (suc (suc zero)))) v h = omega arith
shift_byte (suc (suc (suc (suc (suc zero))))) v h = omega arith
shift_byte (suc (suc (suc (suc (suc (suc zero)))))) v h = omega arith
shift_byte (suc (suc (suc (suc (suc (suc (suc zero))))))) v h = omega arith
shift_byte (suc (suc (suc (suc (suc (suc (suc (suc k)))))))) v h = absurd (omega arith)

next_byte :
    (k v : ℕ)
    → k < 8
    → v < 2 ^ 64
    → bit_or (v / 2 ^ (8 * suc k) * 256 % 2 ^ 64) (v / 2 ^ (8 * k) % 256) ≡ v / 2 ^ (8 * k)
next_byte k v h b =
    let q : ℕ = v / 2 ^ (8 * k) in
    let below : q < 2 ^ 64 = omega arith in
    let kept : q / 256 * 256 % 2 ^ 64 ≡ q / 256 * 256 = omega arith in
    rw (shift_byte k v h, kept, or_byte (q / 256) (q % 256) (omega arith)) (omega arith)

read_u64_from_at :
    (ws ys : List ℕ) (at n i v acc : ℕ)
    → length ws ≡ at + i
    → n + i ≡ 8
    → v < 2 ^ 64
    → acc ≡ v / 2 ^ (8 * n)
    → read_u64_from n i (ws ++ (u64_bytes n i v ++ ys)) at acc ≡ some v
unfolding read_u64_from u64_bytes
read_u64_from_at ws ys at zero i v acc e k h a = ground arith
read_u64_from_at ws ys at (suc n) i v acc e k h a =
    let b : ℕ = v / 2 ^ (56 - i * 8) % 256 in
    let rest : List ℕ = u64_bytes n (i + 1) v ++ ys in
    let here : get_elem? (ws ++ b ∷ rest) (at + i) ≡ some b =
      ground (arith, get_behind ws (b ∷ rest) (at + i) 0 e) in
    let place : 56 - i * 8 ≡ 8 * n = omega arith in
    let read : bit_or (acc * 2 ^ 8 % 2 ^ 64) b ≡ v / 2 ^ (8 * n) =
      rw (a, place) (next_byte n v (omega arith) h) in
    rw (here, ← append_assoc ws (b ∷ []) rest)
      (read_u64_from_at (ws ++ b ∷ []) ys at n (i + 1) v _
        (omega (arith, length-append ws (b ∷ []))) (omega arith) h read)

pub read_u64_at :
    (ws ys : List ℕ) (i v : ℕ)
    → length ws ≡ i
    → v < 2 ^ 64
    → read_u64_be (ws ++ (u64_bytes 8 0 v ++ ys)) i ≡ some v
unfolding read_u64_be
read_u64_at ws ys i v e h =
    read_u64_from_at ws ys i 8 0 v 0 (omega arith) (omega arith) h (omega arith)
