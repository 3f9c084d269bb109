-- ===== src/Codec/Encode.antt =====
-- `EncodeHeader` writes the 44 bytes of the documented layout and nothing behind them.
use vaani_edge.Base.{
  ℕ, ◌≤◌, ◌≡◌, refl, ap, ap₂, some, List, [], ◌∷◌, ◌++◌, arith, drop, length, append_assoc,
  length-append,
}
use vaani_edge.Codec.{
  HeaderFields, encode_header, protocol_magic, protocol_version, message_type, sample_format,
  header_size,
}
use vaani_edge.Codec.Bytes.{
  put_at, memcpy_at, u32_bytes, u64_bytes, length-u64_bytes, write_u32_at, write_u64_at,
}

-- The layout of docs/network_protocol.md, field by field.
unfoldable pub header_bytes : HeaderFields → List ℕ
header_bytes h =
    protocol_magic
    ++ (protocol_version
        ∷ message_type h.type
        ∷ (u32_bytes h.sample_rate_hz
            ++ (sample_format h.format
                ∷ h.channels
                ∷ (u32_bytes h.sequence_number
                    ++ (u64_bytes 8 0 h.timestamp_ms
                        ++ (h.session_id ++ u32_bytes h.payload_length))))))

pub length-u32_bytes : (v : ℕ) → length (u32_bytes v) ≡ 4
unfolding u32_bytes
length-u32_bytes v = refl

pub length-header_bytes :
    (h : HeaderFields) → length h.session_id ≡ 16 → length (header_bytes h) ≡ header_size
unfolding header_bytes u32_bytes
length-header_bytes h e = omega (
  arith,
  length-append (u64_bytes 8 0 h.timestamp_ms) (h.session_id ++ u32_bytes h.payload_length),
  length-append h.session_id (u32_bytes h.payload_length),
  length-u64_bytes 8 0 h.timestamp_ms,
)

-- With a session id of 16 bytes and room for a header, `EncodeHeader` stays inside its arrays and
-- leaves the documented header in front of what stood behind byte 44 before.
pub encode_header-header_bytes :
    (h : HeaderFields) (out : List ℕ)
    → length h.session_id ≡ 16
    → header_size ≤ length out
    → encode_header h out ≡ some (header_bytes h ++ drop header_size out)
unfolding encode_header header_bytes
encode_header-header_bytes h out e room =
    let p1 : List ℕ = protocol_magic ++ (protocol_version ∷ []) in
    let p2 : List ℕ = p1 ++ (message_type h.type ∷ []) in
    let r : List ℕ = u32_bytes h.sample_rate_hz in
    let p3 : List ℕ = p2 ++ r in
    let p4 : List ℕ = p3 ++ (sample_format h.format ∷ []) in
    let p5 : List ℕ = p4 ++ (h.channels ∷ []) in
    let q : List ℕ = u32_bytes h.sequence_number in
    let p6 : List ℕ = p5 ++ q in
    let t : List ℕ = u64_bytes 8 0 h.timestamp_ms in
    let p7 : List ℕ = p6 ++ t in
    let p8 : List ℕ = p7 ++ h.session_id in
    let n3 : length p3 ≡ 10 =
      omega (arith, length-append p2 r, length-u32_bytes h.sample_rate_hz) in
    let n4 : length p4 ≡ 11 = omega (arith, length-append p3 (sample_format h.format ∷ [])) in
    let n5 : length p5 ≡ 12 = omega (arith, length-append p4 (h.channels ∷ [])) in
    let n6 : length p6 ≡ 16 =
      omega (arith, length-append p5 q, length-u32_bytes h.sequence_number) in
    let n7 : length p7 ≡ 24 =
      omega (arith, length-append p6 t, length-u64_bytes 8 0 h.timestamp_ms) in
    let n8 : length p8 ≡ 40 = omega (arith, length-append p7 h.session_id) in
    let p9 : List ℕ = p8 ++ u32_bytes h.payload_length in
    let n9 : length p9 ≡ 44 =
      omega
        (arith, length-append p8 (u32_bytes h.payload_length), length-u32_bytes h.payload_length) in
    let whole : p9 ≡ header_bytes h = simp append_assoc in
    rw
      (
        memcpy_at out [] protocol_magic 0 4 refl refl (omega arith),
        put_at out protocol_magic 4 protocol_version refl (omega arith),
        put_at out p1 5 (message_type h.type) refl (omega arith),
        write_u32_at out p2 6 h.sample_rate_hz refl (omega arith),
        put_at out p3 10 (sample_format h.format) n3 (omega arith),
        put_at out p4 11 h.channels n4 (omega arith),
        write_u32_at out p5 12 h.sequence_number n5 (omega arith),
        write_u64_at out p6 16 h.timestamp_ms n6 (omega arith),
        memcpy_at out p7 h.session_id 24 16 n7 e (omega arith),
        write_u32_at out p8 40 h.payload_length n8 (omega arith),
      )
      (ap some (ap₂ ◌++◌ whole (ap (λ k. drop k out) n9)))
