-- ===== src/Codec/Tests.antt =====
-- A header on concrete bytes.
use vaani_edge.Base.{
  put, ℕ, ◌≤◌, ◌≡◌, ◌↔◌, refl, Bool, true, some, List, [], ◌∷◌, ◌++◌, arith, replicate, length,
  take, get_elem?, memcpy, splice,
}
use vaani_edge.Codec.{
  HeaderFields, MessageHeader, audio_chunk, pcm_s16_le, encode_header, decode_header,
  protocol_magic, protocol_version, header_size, write_u32_be, write_u64_be, read_u32_be,
  read_u64_be,
}
use vaani_edge.Codec.Encode.{header_bytes, encode_header-header_bytes}
use vaani_edge.Codec.Decode.{IsHeader, IsRoomy, decoded, decode_header-encode_header}
use vaani_edge.Codec.Total.{decode_header_total}

abbrev session : List ℕ
session = 1 ∷ 2 ∷ 3 ∷ 4 ∷ 5 ∷ 6 ∷ 7 ∷ 8 ∷ 9 ∷ 10 ∷ 11 ∷ 12 ∷ 13 ∷ 14 ∷ 15 ∷ 16 ∷ []

abbrev chunk : HeaderFields
chunk = record {
  type = audio_chunk;
  session_id = session;
  sequence_number = 258;
  timestamp_ms = 0;
  payload_length = 960;
  sample_rate_hz = 16000;
  format = pcm_s16_le;
  channels = 1;
}

abbrev blank : MessageHeader
blank = record {
  magic = 0 ∷ 0 ∷ 0 ∷ 0 ∷ [];
  version = 0;
  msg_type = 0;
  sample_rate_hz = 0;
  format = 0;
  channels = 0;
  sequence_number = 0;
  timestamp_ms = 0;
  session_id = replicate 16 0;
  payload_length = 0;
}

abbrev wire_bytes : List ℕ
wire_bytes =
    protocol_magic
    ++ (1 ∷ 2 ∷ 0 ∷ 0 ∷ 0x3e ∷ 0x80 ∷ 0 ∷ 1 ∷ 0 ∷ 0 ∷ 1 ∷ 2 ∷ []
        ++ (replicate 8 0 ++ (session ++ (0 ∷ 0 ∷ 3 ∷ 0xc0 ∷ []))))

encode-chunk : encode_header chunk (replicate 45 7) ≡ some (wire_bytes ++ 7 ∷ [])
unfolding encode_header put write_u32_be write_u64_be memcpy splice
encode-chunk = refl

decode-wire_bytes : decode_header wire_bytes 44 blank ≡ some (true, decoded chunk)
unfolding decode_header read_u32_be read_u64_be memcpy splice
decode-wire_bytes = refl

chunk-IsHeader : IsHeader chunk
chunk-IsHeader = ground arith

blank-IsRoomy : IsRoomy blank
blank-IsRoomy = ground arith

encode_header-header_bytes_example :
    encode_header chunk (replicate 45 7) ≡ some (header_bytes chunk ++ 7 ∷ [])
encode_header-header_bytes_example =
    encode_header-header_bytes chunk (replicate 45 7) refl (omega arith)

decode_header-encode_header_example :
    (wire : List ℕ) × (encode_header chunk (replicate 44 0) ≡ some wire)
    × (decode_header wire (length wire) blank ≡ some (true, decoded chunk))
decode_header-encode_header_example =
    decode_header-encode_header chunk (replicate 44 0) blank chunk-IsHeader blank-IsRoomy
      (omega arith)

decode_header_total_example :
    (accepted : Bool) × (out' : MessageHeader) × (decode_header (replicate 50 69) 50 blank
      ≡ some (accepted, out'))
    × ((accepted ≡ true) ↔ (
        (header_size ≤ 50)
        × (take 4 (replicate 50 69) ≡ protocol_magic)
        × (get_elem? (replicate 50 69) 4 ≡ some protocol_version)))
decode_header_total_example = decode_header_total (replicate 50 69) blank blank-IsRoomy
