-- ===== src/Codec/Total.antt =====
-- `DecodeHeader` on any bytes: it stays inside its arrays, and accepts exactly the headers of this
-- protocol and version.
use vaani_edge.Base.{
  ℕ, zero, suc, ◌+◌, ◌≤◌, ◌≡◌, ◌↔◌, refl, ap, ap₂, Bool, true, false, inl, inr, some, List, [], ◌∷◌,
  arith, take, length, get_elem?, get_elem?_total, ltb, ◌==◌, memcpy, memcpy-some, splice,
  drop-ge_length, append-nil, Bool-cases, ==_iff,
}
use vaani_edge.Codec.{
  MessageHeader, decode_header, decode_version, decode_fields, same_bytes, protocol_magic,
  protocol_version, header_size, read_u32_be, read_u64_be, read_u64_from,
}
use vaani_edge.Codec.Decode.{IsRoomy}

same_bytes_iff : (xs ys : List ℕ) → (same_bytes xs ys ≡ true) ↔ (xs ≡ ys)
same_bytes_iff [] [] = (λ e. refl, λ e. refl)
same_bytes_iff [] (y ∷ ys) = (λ e. cc, λ e. cc)
same_bytes_iff (x ∷ xs) [] = (λ e. cc, λ e. cc)
same_bytes_iff (x ∷ xs) (y ∷ ys) =
    let ih = same_bytes_iff xs ys in
    (
      λ e. ap₂ ◌∷◌ (ground arith) (ih.0 (ground arith)),
      λ e. let h : x ≡ y = cc in let t : xs ≡ ys = cc in ground (arith, ih.1 t),
    )

read_u32_total : (xs : List ℕ) (i : ℕ) → i + 4 ≤ length xs → (v : ℕ) × (read_u32_be xs i ≡ some v)
unfolding read_u32_be
read_u32_total xs i h =
    let (b0, e0) = get_elem?_total xs i (omega arith) in
    let (b1, e1) = get_elem?_total xs (i + 1) (omega arith) in
    let (b2, e2) = get_elem?_total xs (i + 2) (omega arith) in
    let (b3, e3) = get_elem?_total xs (i + 3) (omega arith) in rw (e0, e1, e2, e3) (_, refl)

read_u64_from_total :
    (n i : ℕ) (xs : List ℕ) (at acc : ℕ)
    → at + i + n ≤ length xs
    → (v : ℕ) × (read_u64_from n i xs at acc ≡ some v)
unfolding read_u64_from
read_u64_from_total zero i xs at acc h = (acc, refl)
read_u64_from_total (suc n) i xs at acc h =
    let (b, e) = get_elem?_total xs (at + i) (omega arith) in
    rw e (read_u64_from_total n (i + 1) xs at _ (omega arith))

read_u64_total : (xs : List ℕ) (i : ℕ) → i + 8 ≤ length xs → (v : ℕ) × (read_u64_be xs i ≡ some v)
unfolding read_u64_be
read_u64_total xs i h = read_u64_from_total 8 0 xs i 0 (omega arith)

fields_total :
    (bytes : List ℕ) (out : MessageHeader)
    → header_size ≤ length bytes
    → length out.session_id ≡ 16
    → (out' : MessageHeader) × (decode_fields bytes out ≡ some (true, out'))
unfolding decode_fields
fields_total bytes out h s =
    let (t, et) = get_elem?_total bytes 5 (omega arith) in
    let (r, er) = read_u32_total bytes 6 (omega arith) in
    let (f, ef) = get_elem?_total bytes 10 (omega arith) in
    let (c, ec) = get_elem?_total bytes 11 (omega arith) in
    let (q, eq) = read_u32_total bytes 12 (omega arith) in
    let (m, em) = read_u64_total bytes 16 (omega arith) in
    let (p, ep) = read_u32_total bytes 40 (omega arith) in
    rw
      (
        et,
        er,
        ef,
        ec,
        eq,
        em,
        memcpy-some out.session_id 0 bytes 24 16 (omega arith) (omega arith),
        ep,
      )
      (_, refl)

version_total :
    (bytes : List ℕ) (out : MessageHeader)
    → header_size ≤ length bytes
    → length out.session_id ≡ 16
    → (accepted : Bool) × (out' : MessageHeader) × (decode_version bytes out
        ≡ some (accepted, out'))
      × ((accepted ≡ true) ↔ (get_elem? bytes 4 ≡ some protocol_version))
unfolding decode_version
version_total bytes out h s =
    let (v, e) = get_elem?_total bytes 4 (omega arith) in
    let (out', f) = fields_total bytes (record out { version = v }) h s in
    elim (Bool-cases (v == protocol_version)) [
      | inl same ↦ (
        true,
        out',
        rw (e, same, f) refl,
        (λ _. rw e (ap some ((==_iff v protocol_version).0 same)), λ _. refl),
      )
      | inr other ↦ (
        false,
        record out { version = v },
        rw (e, other) refl,
        (λ x. cc, λ x. let w : v ≡ protocol_version = cc in ground arith),
      )
    ]

copy_magic :
    (bytes magic : List ℕ)
    → length magic ≡ 4
    → 4 ≤ length bytes
    → memcpy magic 0 bytes 0 4 ≡ some (take 4 bytes)
unfolding splice
copy_magic bytes magic m h =
    rw
      (
        memcpy-some magic 0 bytes 0 4 (omega arith) (omega arith),
        drop-ge_length magic (0 + 4) (omega arith),
        append-nil,
      )
      refl

-- Given `len` bytes, and a struct with its arrays, `DecodeHeader` reads and writes inside them
-- only, and returns `true` exactly if there are 44 bytes, the first four are "EVA1" and the fifth
-- is the protocol version.
pub decode_header_total :
    (bytes : List ℕ) (out : MessageHeader)
    → IsRoomy out
    → (accepted : Bool) × (out' : MessageHeader) × (decode_header bytes (length bytes) out
        ≡ some (accepted, out'))
      × ((accepted ≡ true) ↔ (
          (header_size ≤ length bytes)
          × (take 4 bytes ≡ protocol_magic)
          × (get_elem? bytes 4 ≡ some protocol_version)))
unfolding decode_header
decode_header_total bytes out room = elim (Bool-cases (ltb (length bytes) header_size)) [
  | inl short ↦ (false, out, rw short refl, (λ x. cc, λ x. absurd (ground (arith, x.0))))
  | inr long ↦
      let fits : header_size ≤ length bytes = ground arith in
      let copied = copy_magic bytes out.magic room.magic (omega arith) in
      let next : MessageHeader = record out { magic = take 4 bytes } in
      let (accepted, out', e, exactly) = version_total bytes next fits room.session in
      elim (Bool-cases (same_bytes (take 4 bytes) protocol_magic)) [
        | inl same ↦ (
          accepted,
          out',
          rw (long, copied, same, e) refl,
          (
            λ x. (fits, (same_bytes_iff (take 4 bytes) protocol_magic).0 same, exactly.0 x),
            λ x. exactly.1 x.2,
          ),
        )
        | inr other ↦ (
          false,
          next,
          rw (long, copied, other) refl,
          (λ x. cc, λ x. let again = (same_bytes_iff (take 4 bytes) protocol_magic).1 x.1 in cc),
        )
      ]
]
