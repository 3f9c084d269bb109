-- ===== src/Codec.antt =====
-- components/lan_transport, protocol_codec: the 44-byte message header. A byte is a number below
-- 256. A function that writes through a pointer returns the array afterwards, and `none` where it
-- would read or write outside an array. Shifts and masks are those of the source: `x >> k` is
-- `x / 2 ^ k` and `x << k` is `x * 2 ^ k`.
pub mod Bytes
pub mod Encode
pub mod Decode
pub mod Total
mod Tests
use vaani_edge.Base.{
  ℕ, zero, suc, ◌+◌, ◌-◌, ◌*◌, ◌/◌, ◌%◌, ◌^◌, Bool, true, false, ◌&&◌, Option, none, some, List, [],
  ◌∷◌, ltb, leb, ◌==◌, if◌then◌else◌, ◌>>=◌, get_elem?, take, drop, length, replicate, memcpy, put,
  bit_and, bit_or, ◌++◌,
}

abbrev pub protocol_version : ℕ
protocol_version = 1

-- "EVA1"
abbrev pub protocol_magic : List ℕ
protocol_magic = 0x45 ∷ 0x56 ∷ 0x41 ∷ 0x31 ∷ []

abbrev pub header_size : ℕ
header_size = 44

pub data MessageType : Type 0 where
  start_session audio_chunk end_session error asr_result : MessageType

-- The value of the enumerator, `static_cast<uint8_t>(type)`.
abbrev pub message_type : MessageType → ℕ
message_type start_session = 1
message_type audio_chunk = 2
message_type end_session = 3
message_type error = 4
message_type asr_result = 5

pub data SampleFormat : Type 0 where
  pcm_s16_le : SampleFormat

abbrev pub sample_format : SampleFormat → ℕ
sample_format pcm_s16_le = 0

pub record MessageHeader : Type 0 where
  pub magic : List ℕ
  pub version : ℕ
  pub msg_type : ℕ
  pub sample_rate_hz : ℕ
  pub format : ℕ
  pub channels : ℕ
  pub sequence_number : ℕ
  pub timestamp_ms : ℕ
  pub session_id : List ℕ
  pub payload_length : ℕ

-- `WriteU32BE(out + at, value)` and `ReadU32BE(in + at)`.
unfoldable pub write_u32_be : List ℕ → ℕ → ℕ → Option (List ℕ)
write_u32_be out at value = do
  out0 ← put out at (bit_and (value / 2 ^ 24) 0xff)
  out1 ← put out0 (at + 1) (bit_and (value / 2 ^ 16) 0xff)
  out2 ← put out1 (at + 2) (bit_and (value / 2 ^ 8) 0xff)
  put out2 (at + 3) (bit_and value 0xff)

unfoldable pub read_u32_be : List ℕ → ℕ → Option ℕ
read_u32_be bytes at = do
  b0 ← get_elem? bytes at
  b1 ← get_elem? bytes (at + 1)
  b2 ← get_elem? bytes (at + 2)
  b3 ← get_elem? bytes (at + 3)
  some (bit_or (bit_or (bit_or (b0 * 2 ^ 24) (b1 * 2 ^ 16)) (b2 * 2 ^ 8)) b3)

-- The loop of `WriteU64BE`, with `n` rounds left from `i` on.
unfoldable pub write_u64_from : ℕ → ℕ → List ℕ → ℕ → ℕ → Option (List ℕ)
write_u64_from zero i out at value = some out
write_u64_from (suc n) i out at value =
    put out (at + i) (bit_and (value / 2 ^ (56 - i * 8)) 0xff) >>= λ next.
    write_u64_from n (i + 1) next at value

unfoldable pub write_u64_be : List ℕ → ℕ → ℕ → Option (List ℕ)
unfolding write_u64_from
write_u64_be out at value = write_u64_from 8 0 out at value

-- The loop of `ReadU64BE`; `value << 8` drops what does not fit 64 bits.
unfoldable pub read_u64_from : ℕ → ℕ → List ℕ → ℕ → ℕ → Option ℕ
read_u64_from zero i bytes at value = some value
read_u64_from (suc n) i bytes at value = get_elem? bytes (at + i) >>= λ b.
    read_u64_from n (i + 1) bytes at (bit_or (value * 2 ^ 8 % 2 ^ 64) b)

unfoldable pub read_u64_be : List ℕ → ℕ → Option ℕ
unfolding read_u64_from
read_u64_be bytes at = read_u64_from 8 0 bytes at 0

-- The arguments of `EncodeHeader`.
pub record HeaderFields : Type 0 where
  pub type : MessageType
  pub session_id : List ℕ
  pub sequence_number : ℕ
  pub timestamp_ms : ℕ
  pub payload_length : ℕ
  pub sample_rate_hz : ℕ
  pub format : SampleFormat
  pub channels : ℕ

-- The running `offset` is written out.
unfoldable pub encode_header : HeaderFields → List ℕ → Option (List ℕ)
encode_header h out = do
  out0 ← memcpy out 0 protocol_magic 0 4
  out1 ← put out0 4 protocol_version
  out2 ← put out1 5 (message_type h.type)
  out3 ← write_u32_be out2 6 h.sample_rate_hz
  out4 ← put out3 10 (sample_format h.format)
  out5 ← put out4 11 h.channels
  out6 ← write_u32_be out5 12 h.sequence_number
  out7 ← write_u64_be out6 16 h.timestamp_ms
  out8 ← memcpy out7 24 h.session_id 0 16
  write_u32_be out8 40 h.payload_length

-- memcmp(xs, ys, n) == 0 on arrays of one length.
abbrev pub same_bytes : List ℕ → List ℕ → Bool
same_bytes [] [] = true
same_bytes (x ∷ xs) (y ∷ ys) = x == y && same_bytes xs ys
same_bytes _ _ = false

-- The part of `DecodeHeader` behind the version test.
unfoldable pub decode_fields : List ℕ → MessageHeader → Option (Bool × MessageHeader)
decode_fields bytes out = do
  msg_type ← get_elem? bytes 5
  rate ← read_u32_be bytes 6
  format ← get_elem? bytes 10
  channels ← get_elem? bytes 11
  sequence ← read_u32_be bytes 12
  timestamp ← read_u64_be bytes 16
  session ← memcpy out.session_id 0 bytes 24 16
  payload ← read_u32_be bytes 40
  some (
    true,
    record out {
      msg_type = msg_type;
      sample_rate_hz = rate;
      format = format;
      channels = channels;
      sequence_number = sequence;
      timestamp_ms = timestamp;
      session_id = session;
      payload_length = payload;
    },
  )

-- The version test.
unfoldable pub decode_version : List ℕ → MessageHeader → Option (Bool × MessageHeader)
unfolding decode_fields
decode_version bytes out = get_elem? bytes 4 >>= λ version.
    let next = record out { version = version } in
    if version == protocol_version then decode_fields bytes next else some (false, next)

-- `DecodeHeader(data, len, out)`: what it returns, and `*out` afterwards.
unfoldable pub decode_header : List ℕ → ℕ → MessageHeader → Option (Bool × MessageHeader)
unfolding decode_version
decode_header bytes len out =
    if ltb len header_size
    then some (false, out)
    else (memcpy out.magic 0 bytes 0 4 >>= λ magic.
        let next = record out { magic = magic } in
        if same_bytes magic protocol_magic then decode_version bytes next else some (false, next))
