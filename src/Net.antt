-- ===== src/Net.antt =====
-- lwIP's sockets, as components/lan_transport calls them: an interface over an abstract state of
-- the network, and the documented behaviour that the theorems rely on. A file descriptor and a
-- return value are C integers; a negative one reports failure.
pub mod Loopback
use vaani_edge.Base.{
  ℕ, ◌-◌, ◌≤◌, ◌≡◌, refl, Bool, true, false, not, ◌&&◌, ◌||◌, ◌==◌, Option, none, some, List, [],
  ◌∷◌, ◌++◌, length, ℤ, pos, negsuc, is_negative, if◌then◌else◌, take,
}

-- The socket options that the code sets, both timeouts.
pub data SockOpt : Type 0 where
  so_rcvtimeo so_sndtimeo : SockOpt

-- `inet_pton` gives the address if it returns 1. `recv` gives its return value and the bytes that
-- it wrote. `setsockopt` takes the seconds and the microseconds of a `struct timeval`.
pub record Net : Type 1 where
  pub World : Type 0
  pub inet_pton : List ℕ → Option ℕ
  pub htons : ℕ → ℕ
  pub socket : World → ℤ × World
  pub setsockopt : ℤ → SockOpt → ℕ → ℕ → World → World
  pub connect : ℤ → ℕ → ℕ → World → ℤ × World
  pub send : ℤ → List ℕ → World → ℤ × World
  pub recv : ℤ → ℕ → World → ℤ × List ℕ × World
  pub close : ℤ → World → World

abbrev pub same_fd : ℤ → ℤ → Bool
same_fd (pos m) (pos n) = m == n
same_fd (negsuc m) (negsuc n) = m == n
same_fd _ _ = false

-- Which descriptors are open: `socket` opens one that was not open, `close` closes it, and nothing
-- else opens or closes any. `recv` writes as many bytes as it returns, and no more than asked for.
pub record IsLawful (n : Net) (is_open : n.World → ℤ → Bool) : Type 0 where
  pub socket_fresh : (w : n.World) (k : ℕ) → (n.socket w).0 ≡ pos k → is_open w (pos k) ≡ false
  pub socket_opens :
      (w : n.World) (k : ℕ) (x : ℤ)
      → (n.socket w).0 ≡ pos k
      → is_open (n.socket w).1 x ≡ (same_fd x (pos k) || is_open w x)
  pub socket_fails :
      (w : n.World) (k : ℕ) (x : ℤ)
      → (n.socket w).0 ≡ negsuc k
      → is_open (n.socket w).1 x ≡ is_open w x
  pub setsockopt_keeps :
      (fd : ℤ) (o : SockOpt) (s u : ℕ) (w : n.World) (x : ℤ)
      → is_open (n.setsockopt fd o s u w) x ≡ is_open w x
  pub connect_keeps :
      (fd : ℤ) (a p : ℕ) (w : n.World) (x : ℤ) → is_open (n.connect fd a p w).1 x ≡ is_open w x
  pub send_keeps :
      (fd : ℤ) (bs : List ℕ) (w : n.World) (x : ℤ) → is_open (n.send fd bs w).1 x ≡ is_open w x
  pub recv_keeps :
      (fd : ℤ) (k : ℕ) (w : n.World) (x : ℤ) → is_open (n.recv fd k w).2 x ≡ is_open w x
  pub close_closes :
      (fd : ℤ) (w : n.World) (x : ℤ)
      → is_open (n.close fd w) x ≡ (not (same_fd x fd) && is_open w x)

-- `recv` writes as many bytes as it returns, and no more than asked for.
pub record IsBounded (n : Net) : Type 0 where
  pub recv_count :
      (fd : ℤ) (k r : ℕ) (w : n.World)
      → (n.recv fd k w).0 ≡ pos r
      → (r ≤ k) × (length (n.recv fd k w).1 ≡ r)

-- What has gone out on the wire: a `send` that does not fail sends everything that it was given,
-- and only `send` adds to it.
pub record IsComplete (n : Net) (wire : n.World → List ℕ) : Type 0 where
  pub send_all :
      (fd : ℤ) (bs : List ℕ) (w : n.World)
      → is_negative (n.send fd bs w).0 ≡ false
      → wire (n.send fd bs w).1 ≡ wire w ++ bs

-- A `send` that does not fail returns how many bytes it has taken, the first of those that it was
-- given, and these go out; one that fails takes none.
pub record IsPartial (n : Net) (wire : n.World → List ℕ) : Type 0 where
  pub send_some :
      (fd : ℤ) (bs : List ℕ) (w : n.World) (k : ℕ)
      → (n.send fd bs w).0 ≡ pos k
      → (k ≤ length bs) × (wire (n.send fd bs w).1 ≡ wire w ++ take k bs)
  pub send_none :
      (fd : ℤ) (bs : List ℕ) (w : n.World) (k : ℕ)
      → (n.send fd bs w).0 ≡ negsuc k
      → wire (n.send fd bs w).1 ≡ wire w

-- A network on which no `send` fails, and only `send` adds to the wire.
pub record IsReliable (n : Net) (wire : n.World → List ℕ) : Type 0 where
  pub complete : IsComplete n wire
  pub send_succeeds : (fd : ℤ) (bs : List ℕ) (w : n.World) → is_negative (n.send fd bs w).0 ≡ false
  pub socket_wire : (w : n.World) → wire (n.socket w).1 ≡ wire w
  pub setsockopt_wire :
      (fd : ℤ) (o : SockOpt) (s u : ℕ) (w : n.World) → wire (n.setsockopt fd o s u w) ≡ wire w
  pub connect_wire : (fd : ℤ) (a p : ℕ) (w : n.World) → wire (n.connect fd a p w).1 ≡ wire w
  pub recv_wire : (fd : ℤ) (k : ℕ) (w : n.World) → wire (n.recv fd k w).2 ≡ wire w
  pub close_wire : (fd : ℤ) (w : n.World) → wire (n.close fd w) ≡ wire w
