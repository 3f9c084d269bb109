-- ===== src/App/SessionMessages.antt =====
-- main/app_main.cpp, `StreamingTask`: the messages of a session, as a receiver takes them off the
-- wire.
use vaani_edge.Base.{
  ℕ, suc, ◌+◌, ◌^◌, ◌≤◌, ◌<◌, ◌≡◌, refl, ap, ap₂, sym, ◌∙◌, some, List, [], ◌∷◌, ◌++◌, arith,
  length, map, append-nil, length-append,
}
use Prim.{tt}
use vaani_edge.Config.{pre_roll_samples}
use vaani_edge.Codec.{MessageHeader, MessageType, audio_chunk}
use vaani_edge.Codec.Decode.{IsRoomy}
use vaani_edge.Transport.{sample_bytes}
use vaani_edge.Transport.Messages.{length-sample_bytes}
use vaani_edge.Transport.Framing.{
  Message, bytes_of, IsMessage, AreMessages, stream, received, parse, parse-stream, stream-append,
  AreMessages-append,
}
use vaani_edge.App.Wire.{AreSmall, numbered}
use vaani_edge.App.SessionBytes.{pre_roll_bytes, session_bytes}
use vaani_edge.App.Streaming.{max_extra_frames}

module _ (sid : List ℕ) where
  abbrev message : MessageType → ℕ → List ℕ → Message
  message type seq payload = record {
    type = type;
    session_id = sid;
    sequence_number = seq;
    payload = payload;
    rate = 16000;
    channels = 1;
  }

  abbrev chunk_messages : ℕ → List (List ℕ) → List Message
  chunk_messages seq [] = []
  chunk_messages seq (chunk ∷ chunks) =
      message audio_chunk seq chunk ∷ chunk_messages (suc seq) chunks

  abbrev early_messages : List ℕ → List Message
  early_messages [] = []
  early_messages (x ∷ xs) = message audio_chunk 0 (sample_bytes (x ∷ xs)) ∷ []

  -- The start, the pre-roll, the chunks that follow it, numbered from one, and the end.
  abbrev pub session_messages : List ℕ → List (List ℕ) → List Message
  session_messages early chunks =
      message MessageType.start_session 0 []
      ∷ (early_messages early
          ++ (chunk_messages 1 chunks
              ++ (message MessageType.end_session (suc (length chunks)) [] ∷ [])))

  stream-chunk_messages :
      (seq : ℕ) (chunks : List (List ℕ))
      → stream (chunk_messages seq chunks) ≡ numbered sid seq chunks
  stream-chunk_messages seq [] = refl
  stream-chunk_messages seq (chunk ∷ chunks) = rw (stream-chunk_messages (suc seq) chunks) refl

  stream-early_messages :
      (early : List ℕ) → stream (early_messages early) ≡ pre_roll_bytes sid early
  stream-early_messages [] = refl
  stream-early_messages (x ∷ xs) = append-nil _

  stream-session_messages :
      (early : List ℕ) (chunks : List (List ℕ))
      → stream (session_messages early chunks) ≡ session_bytes sid early chunks
  stream-session_messages early chunks =
      ap (λ (bs : List ℕ). bytes_of (message MessageType.start_session 0 []) ++ bs)
        (stream-append (early_messages early) _
          ∙ ap₂ (λ (a b : List ℕ). a ++ b) (stream-early_messages early)
              (stream-append (chunk_messages 1 chunks) _
                ∙ ap₂ (λ (a b : List ℕ). a ++ b) (stream-chunk_messages 1 chunks)
                    (append-nil
                      (bytes_of (message MessageType.end_session (suc (length chunks)) [])))))

  length-chunk_messages :
      (seq : ℕ) (chunks : List (List ℕ)) → length (chunk_messages seq chunks) ≡ length chunks
  length-chunk_messages seq [] = refl
  length-chunk_messages seq (chunk ∷ chunks) = ap suc (length-chunk_messages (suc seq) chunks)

  length-early_messages : (early : List ℕ) → length (early_messages early) ≤ 1
  length-early_messages [] = omega arith
  length-early_messages (x ∷ xs) = omega arith

  chunk_messages-AreMessages :
      (seq : ℕ) (chunks : List (List ℕ))
      → length sid ≡ 16
      → seq + length chunks < 2 ^ 32
      → AreSmall chunks
      → AreMessages (chunk_messages seq chunks)
  chunk_messages-AreMessages seq [] e numbers small = tt
  chunk_messages-AreMessages seq (chunk ∷ chunks) e numbers (first, small) = (
    record { session = e; sequence = omega arith; small_rate = omega arith; small = omega arith },
    chunk_messages-AreMessages (suc seq) chunks e (omega arith) small,
  )

  early_messages-AreMessages :
      (early : List ℕ)
      → length sid ≡ 16
      → length early ≤ pre_roll_samples
      → AreMessages (early_messages early)
  early_messages-AreMessages [] e fits = tt
  early_messages-AreMessages (x ∷ xs) e fits = (
    record {
      session = e;
      sequence = omega arith;
      small_rate = omega arith;
      small = omega (arith, length-sample_bytes (x ∷ xs));
    },
    tt,
  )

  -- What a session with a pre-roll and live chunks of the sizes that the task sends puts on the wire
  -- is taken apart, header by header with `DecodeHeader` and each payload by the length in its
  -- header, into the start of the session, the pre-roll with sequence number 0 (if there is one),
  -- the chunks, numbered from 1 without a gap, and the end with the next number.
  pub parse-session_bytes :
      (early : List ℕ) (chunks : List (List ℕ)) (out : MessageHeader)
      → length sid ≡ 16
      → IsRoomy out
      → length early ≤ pre_roll_samples
      → length chunks ≤ max_extra_frames
      → AreSmall chunks
      → parse (max_extra_frames + 3) out (session_bytes sid early chunks)
        ≡ some (map received (session_messages early chunks))
  parse-session_bytes early chunks out e room fits few small =
      let plain : (type : MessageType) (seq : ℕ) → seq < 2 ^ 32 → IsMessage (message type seq []) =
        λ type seq below. record {
          session = e;
          sequence = below;
          small_rate = omega arith;
          small = omega arith;
        } in
      let all : AreMessages (session_messages early chunks) = (
        plain MessageType.start_session 0 (omega arith),
        AreMessages-append (early_messages early) _ (early_messages-AreMessages early e fits) (
            AreMessages-append (chunk_messages 1 chunks) _
              (chunk_messages-AreMessages 1 chunks e (omega arith) small)
              (plain MessageType.end_session (suc (length chunks)) (omega arith), tt)),
      ) in
      let count : length (session_messages early chunks) ≤ max_extra_frames + 3 = omega (
        arith,
        length-append (early_messages early) (
            chunk_messages 1 chunks
            ++ (message MessageType.end_session (suc (length chunks)) [] ∷ [])),
        length-append (chunk_messages 1 chunks)
            (message MessageType.end_session (suc (length chunks)) [] ∷ []),
        length-early_messages early,
        length-chunk_messages 1 chunks,
      ) in
      ap (parse (max_extra_frames + 3) out) (sym (stream-session_messages early chunks))
      ∙ parse-stream (session_messages early chunks) (max_extra_frames + 3) out room all count
