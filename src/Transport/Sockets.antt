-- ===== src/Transport/Sockets.antt =====
-- `Connect` and `Disconnect`: which state they leave the object in, and that no socket leaks.
use vaani_edge.Base.{
  ℕ, zero, suc, ◌≡◌, refl, ap, Bool, true, false, ◌||◌, ◌⊎◌, inl, inr, Option, none, some, arith, ℤ,
  pos, negsuc, is_negative, ◌∙◌,
}
use vaani_edge.Net.{Net, IsLawful, same_fd}
use vaani_edge.Transport.{
  LanTransport, TransportStatus, ok, connect_failed, connect, after_address, after_socket,
  after_connect, disconnect,
}

same_fd→≡ : (x y : ℤ) → same_fd x y ≡ true → x ≡ y
same_fd→≡ (pos a) (pos b) h = ap pos (ground arith)
same_fd→≡ (pos a) (negsuc b) h = cc
same_fd→≡ (negsuc a) (pos b) h = cc
same_fd→≡ (negsuc a) (negsuc b) h = ap negsuc (ground arith)

-- No socket, and none claimed; or a socket that is open.
pub record IsIdle (t : LanTransport) : Type 0 where
  pub no_socket : is_negative t.socket_fd ≡ true
  pub not_connected : t.connected ≡ false

pub record IsLive (t : LanTransport) : Type 0 where
  pub a_socket : is_negative t.socket_fd ≡ false
  pub is_connected : t.connected ≡ true

module _ (n : Net) (is_open : n.World → ℤ → Bool) (laws : IsLawful n is_open) where
  open n use {World}

  -- The same sockets are open in both, or in the second that of `t` too, which the first had closed.
  abbrev pub SameOpen : World → World → Type 0
  SameOpen w w' = (x : ℤ) → is_open w' x ≡ is_open w x

  abbrev pub OneMore : LanTransport → World → World → Type 0
  OneMore t w w' =
      (is_open w t.socket_fd ≡ false)
      × ((x : ℤ) → is_open w' x ≡ (same_fd x t.socket_fd || is_open w x))

  -- What `Connect` may end in.
  abbrev pub Connected : World → LanTransport → World → TransportStatus → Type 0
  Connected w t' w' s =
      ((s ≡ ok) × IsLive t' × OneMore t' w w') ⊎ ((s ≡ connect_failed) × IsIdle t' × SameOpen w w')

  pub close-same :
      (fd : ℤ) (w w1 : World)
      → is_open w fd ≡ false
      → ((x : ℤ) → is_open w1 x ≡ (same_fd x fd || is_open w x))
      → SameOpen w (n.close fd w1)
  close-same fd w w1 fresh opened x =
      ground (
        arith,
        laws.close_closes fd w1 x,
        opened x,
        same_fd→≡ x fd,
        ap (is_open w) {x = x} {y = fd},
      )

  after_connect-Connected :
      (r : ℤ) (k : ℕ) (t : LanTransport) (w w1 : World)
      → t.connected ≡ false
      → is_open w (pos k) ≡ false
      → ((x : ℤ) → is_open w1 x ≡ (same_fd x (pos k) || is_open w x))
      → let (t', w', s) = after_connect n r (pos k) t w1 in Connected w t' w' s
  unfolding after_connect
  after_connect-Connected (pos zero) k t w w1 idle fresh opened =
      inl (refl, ground arith, (fresh, opened))
  after_connect-Connected (pos (suc m)) k t w w1 idle fresh opened =
      inr (refl, ground arith, close-same (pos k) w w1 fresh opened)
  after_connect-Connected (negsuc m) k t w w1 idle fresh opened =
      inr (refl, ground arith, close-same (pos k) w w1 fresh opened)

  after_socket-Connected :
      (fd : ℤ) (a : ℕ) (t : LanTransport) (w : World)
      → IsIdle t
      → (n.socket w).0 ≡ fd
      → let (t', w', s) = after_socket n fd a t (n.socket w).1 in Connected w t' w' s
  unfolding after_socket
  after_socket-Connected (negsuc k) a t w idle e =
      inr (refl, ground arith, λ x. laws.socket_fails w k x e)
  after_socket-Connected (pos k) a t w idle e =
      after_connect-Connected _ k (record t { socket_fd = pos k }) w _ idle.not_connected
        (laws.socket_fresh w k e)
        λ x.
          laws.connect_keeps _ _ _ _ x
          ∙ laws.setsockopt_keeps _ _ _ _ _ x
          ∙ laws.setsockopt_keeps _ _ _ _ _ x
          ∙ laws.socket_opens w k x e

  after_address-Connected :
      (address : Option ℕ) (t : LanTransport) (w : World)
      → IsIdle t
      → let (t', w', s) = after_address n address t w in Connected w t' w' s
  unfolding after_address
  after_address-Connected none t w idle = inr (refl, idle, λ x. refl)
  after_address-Connected (some a) t w idle = after_socket-Connected _ a t w idle refl

  -- `Connect` on an idle object: either it reports success, holds a socket that is open and was not
  -- open before, and no other socket has changed; or it reports failure and is idle, and the same
  -- sockets are open as before.
  pub connect-Connected :
      (t : LanTransport) (w : World)
      → IsIdle t
      → let (t', w', s) = connect n t w in Connected w t' w' s
  unfolding connect
  connect-Connected t w idle = after_address-Connected _ t w idle

  -- `Disconnect` after a successful connection: the object is idle, and the sockets that are open
  -- are those that were open before the connection.
  pub disconnect_live :
      (t : LanTransport) (w w1 : World)
      → IsLive t
      → OneMore t w w1
      → IsIdle (disconnect n t w1).0 × SameOpen w (disconnect n t w1).1
  unfolding disconnect
  disconnect_live t w w1 live more =
      rw live.a_socket (ground arith, close-same t.socket_fd w w1 more.0 more.1)
