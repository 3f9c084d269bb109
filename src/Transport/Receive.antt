-- ===== src/Transport/Receive.antt =====
-- `ReceiveResult`: it stays inside the caller's text buffer and ends the text with a zero byte.
use vaani_edge.Base.{
  put_total, ℕ, zero, suc, ◌^◌, ◌/◌, ◌%◌, ◌*◌, ◌<◌, ◌≡◌, ◌≢◌, refl, ◌∙◌, Bool, true, false, not,
  ◌⊎◌, inl, inr, some, List, arith, length, get_elem?, ltb, ◌==◌, if◌then◌else◌, sub32, memcpy-some,
  splice, length-splice, ℤ, pos, negsuc, ==_iff, Bool-cases,
}
use vaani_edge.Net.{Net, IsLawful, IsBounded, so_rcvtimeo}
use vaani_edge.Codec.{MessageHeader, header_size, decode_header, error, message_type}
use vaani_edge.Codec.Decode.{IsRoomy}
use vaani_edge.Codec.Total.{decode_header_total}
use vaani_edge.Transport.{
  LanTransport, TransportStatus, ok, timeout, protocol_error, receive_text, receive_payload,
  receive_header, receive_result,
}

ℤ-cases : (z : ℤ) → ((k : ℕ) × (z ≡ pos k)) ⊎ ((k : ℕ) × (z ≡ negsuc k))
ℤ-cases (pos k) = inl (k, refl)
ℤ-cases (negsuc k) = inr (k, refl)

-- A zero byte stands inside the buffer.
abbrev pub IsEnded : List ℕ → Type 0
IsEnded text = (k : ℕ) × (k < length text) × (get_elem? text k ≡ some 0)

module _ (n : Net) (bounded : IsBounded n) (is_open : n.World → ℤ → Bool)
    (laws : IsLawful n is_open) where
  open n use {World}

  -- What `receive_text` returns: the buffer keeps its size, and a text that was received is ended.
  record IsText (w : World) (out : List ℕ) (r : World × List ℕ × Bool) : Type 0 where
    pub same_open : (x : ℤ) → is_open r.0 x ≡ is_open w x
    pub same_size : length r.1 ≡ length out
    pub ended : (r.2 ≡ false) ⊎ IsEnded r.1

  receive_text_total :
      (fd : ℤ) (to_read : ℕ) (out : List ℕ) (w : World)
      → to_read < length out
      → (r : World × List ℕ × Bool) × (receive_text n fd to_read out w ≡ some r) × IsText w out r
  unfolding receive_text
  receive_text_total fd zero out w h =
      let (ys, e, l, g) = put_total out 0 0 h in
      (
        (w, ys, true),
        rw e refl,
        record { same_open = λ x. refl; same_size = l; ended = inr (0, omega arith, g) },
      )
  receive_text_total fd (suc m) out w h = elim (ℤ-cases (n.recv fd (suc m) w).0) [
    | inl (k, e) ↦
        let bytes : List ℕ = (n.recv fd (suc m) w).1 in
        let (fits, size) = bounded.recv_count fd (suc m) k w e in
        let copied = memcpy-some out 0 bytes 0 k (omega arith) (omega arith) in
        let same = length-splice out 0 bytes 0 k (omega arith) (omega arith) in
        let (ys, p, l, g) = put_total (splice out 0 bytes 0 k) k 0 (omega arith) in
        (
          ((n.recv fd (suc m) w).2, ys, true),
          rw (asked, e, copied, p) refl,
          record {
            same_open = laws.recv_keeps fd (suc m) w;
            same_size = l ∙ same;
            ended = inr (k, omega arith, g);
          },
        )
    | inr (k, e) ↦ (
      ((n.recv fd (suc m) w).2, out, false),
      rw (asked, e) refl,
      record { same_open = laws.recv_keeps fd (suc m) w; same_size = refl; ended = inl refl },
    )
  ]
    where
      asked : ltb 0 (suc m) ≡ true
      asked = ground arith

  -- What `ReceiveResult` returns.
  pub record IsReceived (w : World) (out : List ℕ) (r : World × List ℕ × TransportStatus)
      : Type 0 where
    pub same_open : (x : ℤ) → is_open r.0 x ≡ is_open w x
    pub same_size : length r.1 ≡ length out
    pub ended : (r.2 ≢ ok) ⊎ IsEnded r.1

  receive_payload_total :
      (fd : ℤ) (h : MessageHeader) (out : List ℕ) (w : World)
      → 0 < length out
      → length out < 2 ^ 32
      → (r : World × List ℕ × TransportStatus) × (receive_payload n fd h out (length out) w
          ≡ some r)
        × IsReceived w out r
  unfolding receive_payload
  receive_payload_total fd h out w room small =
      let limit : ℕ = sub32 (length out) 1 in
      let to_read : ℕ = if ltb h.payload_length limit then h.payload_length else limit in
      let (r, e, t) = receive_text_total fd to_read out w (ground arith) in
      let status : TransportStatus =
        if not r.2
        then timeout
        else if h.msg_type == message_type error
        then protocol_error
        else ok in
      (
        (r.0, r.1, status),
        rw e refl,
        record {
          same_open = t.same_open;
          same_size = t.same_size;
          ended = elim t.ended [ inl failed ↦ inl (λ q. ground arith) | inr there ↦ inr there ];
        },
      )

  receive_header_total :
      (fd r : ℤ) (bytes : List ℕ) (header : MessageHeader) (out : List ℕ) (w : World)
      → ((k : ℕ) → r ≡ pos k → length bytes ≡ k)
      → IsRoomy header
      → 0 < length out
      → length out < 2 ^ 32
      → (x : World × List ℕ × TransportStatus) × (receive_header n fd r bytes header out
            (length out)
            w
          ≡ some x)
        × IsReceived w out x
  unfolding receive_header
  receive_header_total fd (negsuc k) bytes header out w size roomy room small = (
    (w, out, timeout),
    refl,
    record { same_open = λ x. refl; same_size = refl; ended = inl (λ q. cc) },
  )
  receive_header_total fd (pos k) bytes header out w size roomy room small =
      elim (Bool-cases (k == header_size)) [
        | inl whole ↦
            let (valid, h, e, exactly) = decode_header_total bytes header roomy in
            let len : length bytes ≡ header_size = size k refl ∙ (==_iff k header_size).0 whole in
            let e' : decode_header bytes header_size header ≡ some (valid, h) = rw len at e in
            elim (Bool-cases valid) [
              | inl good ↦ rw (whole, e', good) (receive_payload_total fd h out w room small)
              | inr bad ↦ (
                (w, out, protocol_error),
                rw (whole, e', bad) refl,
                record { same_open = λ x. refl; same_size = refl; ended = inl (λ q. cc) },
              )
            ]
        | inr short ↦ (
          (w, out, timeout),
          rw short refl,
          record { same_open = λ x. refl; same_size = refl; ended = inl (λ q. cc) },
        )
      ]

  -- `ReceiveResult` into a text buffer of at least one byte, whose size it is given, stays inside
  -- that buffer and inside its own arrays; the buffer keeps its size, no socket is opened or closed,
  -- and if the result is `ok` a zero byte ends the text inside the buffer.
  pub receive_result_total :
      (t : LanTransport) (header : MessageHeader) (out : List ℕ) (timeout_ms : ℕ) (w : World)
      → IsRoomy header
      → 0 < length out
      → length out < 2 ^ 32
      → (r : World × List ℕ × TransportStatus) × (receive_result n t header out
            (length out)
            timeout_ms
            w
          ≡ some r)
        × IsReceived w out r
  unfolding receive_result
  receive_result_total t header out timeout_ms w roomy room small = elim (Bool-cases t.connected) [
    | inl up ↦
        let w1 : World =
          n.setsockopt t.socket_fd so_rcvtimeo (timeout_ms / 1000) (timeout_ms % 1000 * 1000) w in
        let (x, e, done) =
          receive_header_total t.socket_fd _ _ header out (n.recv t.socket_fd header_size w1).2
            (λ k q. (bounded.recv_count t.socket_fd header_size k w1 q).1) roomy room small in
        (
          x,
          rw up e,
          record {
            same_open = λ y.
                done.same_open y ∙ laws.recv_keeps _ _ w1 y ∙ laws.setsockopt_keeps _ _ _ _ w y;
            same_size = done.same_size;
            ended = done.ended;
          },
        )
    | inr down ↦ (
      (w, out, timeout),
      rw down refl,
      record { same_open = λ x. refl; same_size = refl; ended = inl (λ q. cc) },
    )
  ]
