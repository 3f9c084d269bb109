-- ===== src/Transport/PartialTests.antt =====
-- A network on which a `send` takes three bytes and no more: a message is cut short, and reported
-- as sent.
use vaani_edge.Base.{
  ℕ, ◌≡◌, refl, ◌∙◌, subst, sym, ◌≤◌, length-take, some, List, [], ◌∷◌, ◌++◌, arith, length, take,
  pos, ap,
}
use vaani_edge.Net.{Net, IsPartial}
use vaani_edge.Net.Loopback.{World, quiet, loopback}
use vaani_edge.Codec.{audio_chunk}
use vaani_edge.Codec.Encode.{header_bytes}
use vaani_edge.Transport.{TransportStatus, ok, send_message, send_frame}
use vaani_edge.Transport.Messages.{message_fields, send_message_lem}
use vaani_edge.Transport.Partial.{Delivery, send_message-Delivery}
use vaani_edge.Transport.Tests.{live, session, payload}

abbrev stingy : Net
stingy = record loopback {
  send = λ fd bs w. (pos (length (take 3 bs)), record w { wire = w.wire ++ take 3 bs });
}

take_three : (bs : List ℕ) → take (length (take 3 bs)) bs ≡ take 3 bs
take_three [] = refl
take_three (b ∷ []) = refl
take_three (b ∷ c ∷ []) = refl
take_three (b ∷ c ∷ d ∷ bs) = refl

stingy-IsPartial : IsPartial stingy (λ w. w.wire)
stingy-IsPartial = record {
  send_some = λ fd bs w k e.
      let same : length (take 3 bs) ≡ k = cc in
      subst (λ m. (m ≤ length bs) × (w.wire ++ take 3 bs ≡ w.wire ++ take m bs)) same
        (omega (arith, length-take 3 bs), ap (λ xs. w.wire ++ xs) (sym (take_three bs)));
  send_none = λ fd bs w k e. ground arith;
}

-- Six bytes go out.
send-cut :
    send_message stingy live audio_chunk session 1 payload 16000 1 (quiet [])
    ≡ some (record (quiet []) { wire = 69 ∷ 86 ∷ 65 ∷ 1 ∷ 0 ∷ 255 ∷ [] }, ok)
unfolding send_frame header_bytes
send-cut = send_message_lem stingy live audio_chunk session 1 payload 16000 1 (quiet []) refl ∙ refl

send_message-Delivery_example :
    (v : World) × (s : TransportStatus) × (send_message stingy live audio_chunk session 1 payload
        16000 1
        (quiet [])
      ≡ some (v, s))
    × Delivery stingy
        (λ w. w.wire)
        live
        (header_bytes (message_fields audio_chunk session 1 4 16000 1))
        payload
        (quiet [])
        v
        s
send_message-Delivery_example =
    send_message-Delivery stingy (λ w. w.wire) stingy-IsPartial live audio_chunk session 1 payload
      16000 1 (quiet []) refl (omega arith)
