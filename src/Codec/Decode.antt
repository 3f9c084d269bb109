-- ===== src/Codec/Decode.antt =====
-- `DecodeHeader` reads back what `EncodeHeader` wrote, and refuses everything else that it checks.
use vaani_edge.Base.{
  ℕ, ◌+◌, ◌^◌, ◌≤◌, ◌<◌, ◌≡◌, refl, true, false, some, List, [], ◌∷◌, ◌++◌, arith, drop, length,
  append_assoc, length-append, ltb, memcpy, memcpy-some, splice, drop-append_left, take-append_left,
  append-nil, drop-ge_length,
}
use vaani_edge.Codec.{
  HeaderFields, MessageHeader, encode_header, decode_header, protocol_magic, protocol_version,
  message_type, sample_format, header_size,
}
use vaani_edge.Codec.Bytes.{u32_bytes, u64_bytes, read_u32_at, read_u64_at}
use vaani_edge.Codec.Encode.{header_bytes, length-header_bytes, encode_header-header_bytes}

-- The fields fit their types.
pub record IsHeader (h : HeaderFields) : Type 0 where
  pub rate : h.sample_rate_hz < 2 ^ 32
  pub sequence : h.sequence_number < 2 ^ 32
  pub timestamp : h.timestamp_ms < 2 ^ 64
  pub payload : h.payload_length < 2 ^ 32
  pub session : length h.session_id ≡ 16

-- The arrays of the struct that `DecodeHeader` fills.
pub record IsRoomy (out : MessageHeader) : Type 0 where
  pub magic : length out.magic ≡ 4
  pub session : length out.session_id ≡ 16

-- The struct with the fields of a header.
abbrev pub decoded : HeaderFields → MessageHeader
decoded h = record {
  magic = protocol_magic;
  version = protocol_version;
  msg_type = message_type h.type;
  sample_rate_hz = h.sample_rate_hz;
  format = sample_format h.format;
  channels = h.channels;
  sequence_number = h.sequence_number;
  timestamp_ms = h.timestamp_ms;
  session_id = h.session_id;
  payload_length = h.payload_length;
}

-- A copy that fills the whole of an array.
copy_whole :
    (dst ws src ys : List ℕ) (i n : ℕ)
    → length dst ≡ n
    → length ws ≡ i
    → length src ≡ n
    → memcpy dst 0 (ws ++ (src ++ ys)) i n ≡ some src
unfolding splice
copy_whole dst ws src ys i n d w s = rw (
  memcpy-some dst 0 (ws ++ (src ++ ys)) i n (omega arith)
      (omega (arith, length-append ws (src ++ ys), length-append src ys)),
  drop-append_left ws (src ++ ys) i w,
  take-append_left src ys n s,
  drop-ge_length dst (0 + n) (omega arith),
  append-nil,
)

-- A header that `EncodeHeader` wrote decodes to its fields, whatever follows it.
pub decode_header-header_bytes :
    (h : HeaderFields) (rest : List ℕ) (len : ℕ) (out : MessageHeader)
    → IsHeader h
    → IsRoomy out
    → header_size ≤ len
    → decode_header (header_bytes h ++ rest) len out ≡ some (true, decoded h)
unfolding decode_header header_bytes u32_bytes u64_bytes
decode_header-header_bytes h rest len out ok room long =
    let sid : List ℕ = h.session_id in
    let tail : List ℕ = u32_bytes h.payload_length ++ rest in
    let ws6 : List ℕ = protocol_magic ++ (protocol_version ∷ message_type h.type ∷ []) in
    let ws12 : List ℕ =
      ws6 ++ (u32_bytes h.sample_rate_hz ++ (sample_format h.format ∷ h.channels ∷ [])) in
    let ws16 : List ℕ = ws12 ++ u32_bytes h.sequence_number in
    let ws24 : List ℕ = ws16 ++ u64_bytes 8 0 h.timestamp_ms in
    let from16 : List ℕ = u64_bytes 8 0 h.timestamp_ms ++ (sid ++ tail) in
    let from12 : List ℕ = u32_bytes h.sequence_number ++ from16 in
    let from10 : List ℕ = sample_format h.format ∷ h.channels ∷ from12 in
    let long_enough : ltb len header_size ≡ false = ground arith in
    rw
      (
        append_assoc sid (u32_bytes h.payload_length) rest,
        long_enough,
        copy_whole out.magic [] protocol_magic
            (protocol_version ∷ message_type h.type ∷ (u32_bytes h.sample_rate_hz ++ from10)) 0 4
            room.magic refl refl,
        read_u32_at ws6 from10 6 h.sample_rate_hz refl ok.rate,
        read_u32_at ws12 from16 12 h.sequence_number refl ok.sequence,
        read_u64_at ws16 (sid ++ tail) 16 h.timestamp_ms refl ok.timestamp,
        copy_whole out.session_id ws24 sid tail 24 16 room.session refl ok.session,
        read_u32_at (ws24 ++ sid) rest 40 h.payload_length (omega (arith, length-append ws24 sid))
            ok.payload,
      )
      refl

-- `EncodeHeader` and then `DecodeHeader` on the same buffer: both stay inside their arrays, and the
-- second returns `true` and every field that the first was given.
pub decode_header-encode_header :
    (h : HeaderFields) (buffer : List ℕ) (out : MessageHeader)
    → IsHeader h
    → IsRoomy out
    → header_size ≤ length buffer
    → (wire : List ℕ) × (encode_header h buffer ≡ some wire)
      × (decode_header wire (length wire) out ≡ some (true, decoded h))
decode_header-encode_header h buffer out ok room fits =
    let rest : List ℕ = drop header_size buffer in
    (
      header_bytes h ++ rest,
      encode_header-header_bytes h buffer ok.session fits,
      decode_header-header_bytes h rest _ out ok room
          (omega (arith, length-append (header_bytes h) rest, length-header_bytes h ok.session)),
    )
