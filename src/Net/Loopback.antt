-- ===== src/Net/Loopback.antt =====
-- A network for the tests: descriptors are numbered in turn, a send appends to `wire`, and what is
-- received is the front of `inbox`.
use vaani_edge.Base.{
  ℕ, suc, ◌≡◌, refl, subst, Bool, false, not, ◌&&◌, ◌||◌, some, List, [], ◌++◌, arith, length, take,
  drop, length-take, ltb, ℤ, pos, negsuc,
}
use vaani_edge.Net.{Net, IsLawful, IsBounded, IsComplete, IsReliable, same_fd}

pub record World : Type 0 where
  pub next : ℕ
  pub closed : ℤ → Bool
  pub wire : List ℕ
  pub inbox : List ℕ

abbrev pub quiet : List ℕ → World
quiet inbox = record { next = 0; closed = λ x. false; wire = []; inbox = inbox }

abbrev pub is_open : World → ℤ → Bool
is_open w (pos k) = ltb k w.next && not (w.closed (pos k))
is_open w (negsuc k) = false

abbrev pub loopback : Net
loopback = record {
  World = World;
  inet_pton = λ host. some 1;
  htons = λ port. port;
  socket = λ w. (
    pos w.next,
    record w { next = suc w.next; closed = λ x. not (same_fd x (pos w.next)) && w.closed x },
  );
  setsockopt = λ fd o s u w. w;
  connect = λ fd a p w. (pos 0, w);
  send = λ fd bs w. (pos (length bs), record w { wire = w.wire ++ bs });
  recv = λ fd k w.
      (pos (length (take k w.inbox)), take k w.inbox, record w { inbox = drop k w.inbox });
  close = λ fd w. record w { closed = λ x. same_fd x fd || w.closed x };
}

opens :
    (w : World) (x : ℤ) → is_open (loopback.socket w).1 x ≡ (same_fd x (pos w.next) || is_open w x)
opens w (pos k) = ground arith
opens w (negsuc k) = refl

closes :
    (fd : ℤ) (w : World) (x : ℤ)
    → is_open (loopback.close fd w) x ≡ (not (same_fd x fd) && is_open w x)
closes fd w (pos k) = ground arith
closes fd w (negsuc k) = ground arith

pub loopback-IsLawful : IsLawful loopback is_open
loopback-IsLawful = record {
  socket_fresh = λ w k e. ground arith;
  socket_opens = λ w k x e.
      subst (λ d. is_open (loopback.socket w).1 x ≡ (same_fd x d || is_open w x)) e (opens w x);
  socket_fails = λ w k x e. cc;
  setsockopt_keeps = λ fd o s u w x. refl;
  connect_keeps = λ fd a p w x. refl;
  send_keeps = λ fd bs w x. keeps w (loopback.send fd bs w).1 x refl refl;
  recv_keeps = λ fd k w x. keeps w (loopback.recv fd k w).2 x refl refl;
  close_closes = closes;
}
  where
    keeps :
        (w v : World) (x : ℤ) → v.next ≡ w.next → v.closed ≡ w.closed → is_open v x ≡ is_open w x
    keeps w v (pos k) e f = rw (e, f) refl
    keeps w v (negsuc k) e f = refl

pub loopback-IsBounded : IsBounded loopback
loopback-IsBounded = record {
  recv_count = λ fd k r w e. (ground (arith, length-take k w.inbox), ground arith);
}

pub loopback-IsComplete : IsComplete loopback (λ w. w.wire)
loopback-IsComplete = record { send_all = λ fd bs w e. refl }

pub loopback-IsReliable : IsReliable loopback (λ w. w.wire)
loopback-IsReliable = record {
  complete = loopback-IsComplete;
  send_succeeds = λ fd bs w. refl;
  socket_wire = λ w. refl;
  setsockopt_wire = λ fd o s u w. refl;
  connect_wire = λ fd a p w. refl;
  recv_wire = λ fd k w. refl;
  close_wire = λ fd w. refl;
}
