-- ===== src/Transport/Framing.antt =====
-- How a receiver takes a byte stream apart into messages: `DecodeHeader` on what is left, then as
-- many bytes of payload as the header says (docs/network_protocol.md).
use vaani_edge.Base.{
  ℕ, zero, suc, ◌+◌, ◌^◌, ◌≤◌, ◌<◌, ◌≡◌, refl, ap, sym, ◌∙◌, true, false, ◌&&◌, Option, none, some,
  List, [], ◌∷◌, ◌++◌, arith, length, take, drop, map, leb, if◌then◌else◌, ◌>>=◌, append_assoc,
  length-append, take-append_left, drop-append_left, u32, ◌==◌,
}
use Prim.{Unit}
use vaani_edge.Codec.{HeaderFields, MessageHeader, MessageType, header_size, decode_header}
use vaani_edge.Codec.Encode.{header_bytes, length-header_bytes}
use vaani_edge.Codec.Decode.{IsHeader, IsRoomy, decoded, decode_header-header_bytes}
use vaani_edge.Transport.Messages.{message_fields}
use vaani_edge.Transport.Reliable.{frame_bytes}

-- What a sender gives to `SendMessage`.
pub record Message : Type 0 where
  pub type : MessageType
  pub session_id : List ℕ
  pub sequence_number : ℕ
  pub payload : List ℕ
  pub rate : ℕ
  pub channels : ℕ

pub record IsMessage (m : Message) : Type 0 where
  pub session : length m.session_id ≡ 16
  pub sequence : m.sequence_number < 2 ^ 32
  pub small_rate : m.rate < 2 ^ 32
  pub small : length m.payload < 2 ^ 32

abbrev pub AreMessages : List Message → Type 0
AreMessages [] = Unit
AreMessages (m ∷ ms) = IsMessage m × AreMessages ms

abbrev pub bytes_of : Message → List ℕ
bytes_of m = frame_bytes m.type m.session_id m.sequence_number m.payload m.rate m.channels

abbrev pub stream : List Message → List ℕ
stream [] = []
stream (m ∷ ms) = bytes_of m ++ stream ms

-- The header and the payload, as they arrive.
abbrev pub received : Message → MessageHeader × List ℕ
received m = (
  decoded
      (message_fields m.type m.session_id m.sequence_number (length m.payload) m.rate m.channels),
  m.payload,
)

-- At most `fuel` messages. `out` stands for the struct that each header is decoded into.
abbrev pub parse : ℕ → MessageHeader → List ℕ → Option (List (MessageHeader × List ℕ))
parse zero out bytes = if length bytes == 0 then some [] else none
parse (suc fuel) out bytes =
    if length bytes == 0
    then some []
    else (decode_header bytes (length bytes) out >>= λ (valid, h).
        let size = header_size + h.payload_length in
        let rest = parse fuel out (drop size bytes) in
        if valid && leb size (length bytes)
        then (rest >>= λ later. some ((h, take h.payload_length (drop header_size bytes)) ∷ later))
        else none)

length-stream :
    (m : Message) (ms : List Message)
    → length m.session_id ≡ 16
    → length (stream (m ∷ ms)) ≡ header_size + (length m.payload + length (stream ms))
length-stream m ms e =
    let h : HeaderFields =
      message_fields m.type m.session_id m.sequence_number (length m.payload) m.rate m.channels in
    omega (
      arith,
      length-header_bytes h e,
      length-append (bytes_of m) (stream ms),
      length-append (header_bytes h) m.payload,
    )

-- One message off the front.
parse_step :
    (fuel : ℕ) (out h : MessageHeader) (bytes payload rest : List ℕ)
    (later : List (MessageHeader × List ℕ))
    → 0 < length bytes
    → decode_header bytes (length bytes) out ≡ some (true, h)
    → header_size + h.payload_length ≤ length bytes
    → take h.payload_length (drop header_size bytes) ≡ payload
    → drop (header_size + h.payload_length) bytes ≡ rest
    → parse fuel out rest ≡ some later
    → parse (suc fuel) out bytes ≡ some ((h, payload) ∷ later)
parse_step fuel out h bytes payload rest later some_bytes read fits inside behind parsed =
    let there : (length bytes == 0) ≡ false = ground arith in
    let whole : leb (header_size + h.payload_length) (length bytes) ≡ true = ground arith in
    rw (there, read, whole, behind, parsed, inside) refl

-- Messages sent one after the other are taken apart into the same messages.
pub parse-stream :
    (ms : List Message) (fuel : ℕ) (out : MessageHeader)
    → IsRoomy out
    → AreMessages ms
    → length ms ≤ fuel
    → parse fuel out (stream ms) ≡ some (map received ms)
parse-stream [] zero out room ok enough = refl
parse-stream [] (suc fuel) out room ok enough = refl
parse-stream (m ∷ ms) zero out room ok enough = absurd (omega arith)
parse-stream (m ∷ ms) (suc fuel) out room (good, ok) enough =
    let h : HeaderFields =
      message_fields m.type m.session_id m.sequence_number (length m.payload) m.rate m.channels in
    let fits : IsHeader h = ground arith in
    let size : length (header_bytes h) ≡ header_size = length-header_bytes h good.session in
    let exact : u32 (length m.payload) ≡ length m.payload = ground arith in
    let bytes : List ℕ = stream (m ∷ ms) in
    let split : bytes ≡ header_bytes h ++ (m.payload ++ stream ms) =
      append_assoc (header_bytes h) m.payload (stream ms) in
    let all = length-stream m ms good.session in
    let read : decode_header bytes (length bytes) out ≡ some (true, decoded h) =
      ap (λ (bs : List ℕ). decode_header bs (length bytes) out) split
      ∙ decode_header-header_bytes h (m.payload ++ stream ms) (length bytes) out fits room
          (omega (arith, all)) in
    let inside : take (length m.payload) (drop header_size bytes) ≡ m.payload =
      ap (take (length m.payload)) (
        ap (drop header_size) split
        ∙ drop-append_left (header_bytes h) (m.payload ++ stream ms) header_size size)
      ∙ take-append_left m.payload (stream ms) _ refl in
    let behind : drop (header_size + length m.payload) bytes ≡ stream ms =
      drop-append_left (bytes_of m) (stream ms) _
        (omega (arith, size, length-append (header_bytes h) m.payload)) in
    parse_step fuel out (decoded h) bytes m.payload (stream ms) (map received ms)
      (omega (arith, all)) read (omega (arith, all, exact))
      (ap (λ (k : ℕ). take k (drop header_size bytes)) exact ∙ inside)
      (ap (λ (k : ℕ). drop (header_size + k) bytes) exact ∙ behind)
      (parse-stream ms fuel out room ok (omega arith))

pub stream-append : (xs ys : List Message) → stream (xs ++ ys) ≡ stream xs ++ stream ys
stream-append [] ys = refl
stream-append (m ∷ ms) ys = rw (stream-append ms ys) (sym (append_assoc (bytes_of m) _ _))

pub AreMessages-append :
    (xs ys : List Message) → AreMessages xs → AreMessages ys → AreMessages (xs ++ ys)
AreMessages-append [] ys all more = more
AreMessages-append (m ∷ ms) ys (good, all) more = (good, AreMessages-append ms ys all more)
