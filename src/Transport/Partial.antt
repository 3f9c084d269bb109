-- ===== src/Transport/Partial.antt =====
-- components/lan_transport, lan_transport.cpp, `SendMessage`: what goes out on sockets that may take
-- fewer bytes than they are given.
use vaani_edge.Base.{
  ℕ, ◌+◌, ◌^◌, ◌<◌, ◌≤◌, ◌≡◌, refl, ap, ◌∙◌, true, false, ◌⊎◌, inl, inr, some, List, [], ◌∷◌, ◌++◌,
  arith, length, take, ltb, u32, ℤ, pos, negsuc, Bool-cases, append_assoc,
}
use vaani_edge.Net.{Net, IsPartial}
use vaani_edge.Codec.{MessageType, header_size}
use vaani_edge.Codec.Encode.{header_bytes}
use vaani_edge.Transport.{
  LanTransport, TransportStatus, ok, send_failed, protocol_error, max_frame_bytes, send_frame,
  send_message,
}
use vaani_edge.Transport.Messages.{message_fields, send_message_lem}

sign_cases : (z : ℤ) → ((k : ℕ) × (z ≡ pos k)) ⊎ ((k : ℕ) × (z ≡ negsuc k))
sign_cases (pos k) = inl (k, refl)
sign_cases (negsuc k) = inr (k, refl)

module _ (n : Net) (wire : n.World → List ℕ) where
  open n use {World}

  -- The network after the header has been given to `send`, and after the payload has.
  abbrev first_sent : ℤ → List ℕ → World → World
  first_sent fd header w = (n.send fd header w).1

  abbrev both_sent : ℤ → List ℕ → List ℕ → World → World
  both_sent fd header payload w = (n.send fd payload (first_sent fd header w)).1

  -- What the calls of `send` have answered, what has gone out, the network then, and what is reported.
  pub data Went (fd : ℤ) (header payload : List ℕ) (w : World)
      : World → TransportStatus → Type 0 where
    no_header :
        (k : ℕ)
        → (n.send fd header w).0 ≡ negsuc k
        → wire (first_sent fd header w) ≡ wire w
        → Went fd header payload w (first_sent fd header w) send_failed
    only_header :
        (k : ℕ)
        → (n.send fd header w).0 ≡ pos k
        → payload ≡ []
        → k ≤ length header
        → wire (first_sent fd header w) ≡ wire w ++ take k header
        → Went fd header payload w (first_sent fd header w) ok
    no_payload :
        (k m : ℕ)
        → (n.send fd header w).0 ≡ pos k
        → (n.send fd payload (first_sent fd header w)).0 ≡ negsuc m
        → k ≤ length header
        → wire (both_sent fd header payload w) ≡ wire w ++ take k header
        → Went fd header payload w (both_sent fd header payload w) send_failed
    both :
        (k m : ℕ)
        → (n.send fd header w).0 ≡ pos k
        → (n.send fd payload (first_sent fd header w)).0 ≡ pos m
        → k ≤ length header
        → m ≤ length payload
        → wire (both_sent fd header payload w) ≡ wire w ++ (take k header ++ take m payload)
        → Went fd header payload w (both_sent fd header payload w) ok

  -- Nothing has been given to `send`, or a frame has.
  pub data Delivery (t : LanTransport) (header payload : List ℕ) (w : World)
      : World → TransportStatus → Type 0 where
    closed : t.connected ≡ false → Delivery t header payload w w send_failed
    too_large :
        max_frame_bytes < header_size + length payload
        → Delivery t header payload w w protocol_error
    given :
        (v : World) (s : TransportStatus)
        → header_size + length payload ≤ max_frame_bytes
        → Went t.socket_fd header payload w v s
        → Delivery t header payload w v s

  module _ (partial : IsPartial n wire) where
    send_frame-Went :
        (fd : ℤ) (header payload : List ℕ) (w : World)
        → Went fd header payload w
            (send_frame n fd header payload w).0
            (send_frame n fd header payload w).1
    unfolding send_frame
    send_frame-Went fd header [] w = elim (sign_cases (n.send fd header w).0) [
      | inr (k, failed) ↦ rw failed (no_header k failed (partial.send_none fd header w k failed))
      | inl (k, fine) ↦
          let (few, gone) = partial.send_some fd header w k fine in
          rw fine (only_header k fine refl few gone)
    ]
    send_frame-Went fd header (b ∷ payload) w =
        let held : ltb 0 (length (b ∷ payload)) ≡ true = ground arith in
        elim (sign_cases (n.send fd header w).0) [
          | inr (k, failed) ↦
              rw failed (no_header k failed (partial.send_none fd header w k failed))
          | inl (k, fine) ↦
              let (few, gone) = partial.send_some fd header w k fine in
              elim (sign_cases (n.send fd (b ∷ payload) (first_sent fd header w)).0) [
                | inr (m, failed) ↦
                    rw (fine, held, failed)
                      (no_payload k m fine failed few
                        (partial.send_none fd (b ∷ payload) _ m failed ∙ gone))
                | inl (m, fine') ↦
                    let (few', gone') = partial.send_some fd (b ∷ payload) _ m fine' in
                    rw (fine, held, fine')
                      (both k m fine fine' few few' (
                        gone'
                        ∙ ap (λ bs. bs ++ take m (b ∷ payload)) gone
                        ∙ append_assoc (wire w) _ _))
              ]
        ]

    -- Over sockets that may take fewer bytes than they are given, with a session id of 16 bytes and
    -- fewer than 2 ^ 31 bytes of payload, `SendMessage` always comes to an end inside its arrays. It sends nothing if the transport is not
    -- connected or the frame is too large, and otherwise gives `send` the header and then the
    -- payload, if there is one. It reports success exactly if neither call fails; what has then gone
    -- out is the front of the header and the front of the payload, as many bytes of each as `send`
    -- has taken, all of them or not.
    pub send_message-Delivery :
        (t : LanTransport) (type : MessageType) (sid : List ℕ) (seq : ℕ) (payload : List ℕ)
        (rate channels : ℕ) (w : World)
        → length sid ≡ 16
        → length payload < 2 ^ 31
        → (v : World) × (s : TransportStatus) × (send_message n t type sid seq payload rate channels
              w
            ≡ some (v, s))
          × Delivery t
              (header_bytes (message_fields type sid seq (length payload) rate channels))
              payload
              w
              v
              s
    send_message-Delivery t type sid seq payload rate channels w e small =
        let h : List ℕ =
          header_bytes (message_fields type sid seq (length payload) rate channels) in
        let whole = send_message_lem n t type sid seq payload rate channels w e in
        elim (Bool-cases t.connected) [
          | inr off ↦ (w, send_failed, whole ∙ rw off refl, closed off)
          | inl on ↦ elim (Bool-cases (ltb max_frame_bytes (u32 (header_size + length payload)))) [
            | inl large ↦ (w, protocol_error, whole ∙ rw (on, large) refl, too_large (ground arith))
            | inr fits ↦ (
              _,
              _,
              whole ∙ rw (on, fits) refl,
              given _ _ (ground arith) (send_frame-Went t.socket_fd h payload w),
            )
          ]
        ]
