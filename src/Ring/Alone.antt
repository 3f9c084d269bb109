-- ===== src/Ring/Alone.antt =====
-- components/ring_buffer, ring_buffer.cpp: what the accesses of one call do together, if no other
-- task touches the buffer meanwhile: what the call does.
use vaani_edge.Base.{
  ℕ, ◌+◌, ◌≡◌, refl, ap, ◌∙◌, ◌%◌, Bool, true, false, List, [], ◌∷◌, Option, none, some, arith,
  length, ◌>>=◌, u32, ltb, leb, ◌==◌, sub32, elements, memcpy, min, Bool-cases, inl, inr, ◌⊎◌,
}
use vaani_edge.Ring
use vaani_edge.Ring.{RingBuffer, Output, take_mutex, give_mutex, copy_in, copy_out, advance}
use vaani_edge.Ring.Trace.{Call, push, get_last, read, Reply, pushed, got, step}
use vaani_edge.Ring.Locked.{
  Access, find_start, read_start, drop_read, find_end, move_write, move_read, store_first,
  store_rest, fetch_first, fetch_rest, Local, access, samples_of, reply_of, program, locals_of,
  is_void, is_granted,
}

pub bind_assoc :
    {B C D : Type 0} (o : Option B) (f : B → Option C) (g : C → Option D)
    → (o >>= f) >>= g ≡ o >>= λ b. f b >>= g
bind_assoc none f g = refl
bind_assoc (some b) f g = refl

pub bind_cong :
    {B C : Type 0} (o : Option B) (f g : B → Option C) (e : (b : B) → f b ≡ g b) → o >>= f ≡ o >>= g
bind_cong none f g e = refl
bind_cong (some b) f g e = e b

zero_or_not : (n : ℕ) → (n ≡ 0) ⊎ ((n == 0) ≡ false)
zero_or_not n = ground arith

module _ {A : Type 0} where
  -- The accesses in turn.
  unfoldable pub finish :
      List Access → List A → RingBuffer A → Local A → Option (RingBuffer A × Local A)
  finish [] xs r l = some (r, l)
  finish (m ∷ ms) xs r l = access m xs r l >>= λ (r', l'). finish ms xs r' l'

  -- The mutex is given back, and the call returns.
  abbrev pub return_from : Call A → RingBuffer A × Local A → Option (RingBuffer A × Reply A)
  return_from c (r, l) = some (give_mutex r, reply_of c l)

  abbrev as_pushed : RingBuffer A × Bool → Option (RingBuffer A × Reply A)
  as_pushed (r, done) = some (r, pushed done)

  abbrev as_got : Output A → Option (RingBuffer A × Reply A)
  as_got (r, w, n) = some (r, got w n)

  -- The rest of a call, with the mutex given back behind it.
  unfoldable pub complete :
      Call A → List Access → RingBuffer A → Local A → Option (RingBuffer A × Reply A)
  complete c ms r l = finish ms (samples_of c) r l >>= return_from c

  pub complete_done :
      (c : Call A) (r : RingBuffer A) (l : Local A)
      → complete c [] r l ≡ some (give_mutex r, reply_of c l)
  unfolding complete finish
  complete_done c r l = refl

  pub complete_next :
      (c : Call A) (m : Access) (ms : List Access) (r : RingBuffer A) (l : Local A)
      → complete c (m ∷ ms) r l ≡ access m (samples_of c) r l >>= λ (r', l'). complete c ms r' l'
  unfolding complete finish
  complete_next c m ms r l = bind_assoc (access m (samples_of c) r l) _ _

  -- The two stores are the copy.
  finish-copy_in :
      (ms : List Access) (xs : List A) (r : RingBuffer A) (l : Local A)
      → l.place ≡ u32 (r.write_pos + l.count)
      → finish (store_first ∷ store_rest ∷ ms) xs r l
        ≡ copy_in r xs l.skip l.count >>= λ stored. finish ms xs (record r { storage = stored }) l
  unfolding finish access copy_in
  finish-copy_in ms xs r l e =
      let first : ℕ = sub32 r.capacity r.write_pos in
      let rest : ℕ = sub32 l.count first in
      let part : ℕ → Option (List A) =
        λ count. memcpy r.storage r.write_pos xs l.skip (elements count) in
      elim (Bool-cases (leb (u32 (r.write_pos + l.count)) r.capacity)) [
        | inl fits ↦
            rw (e, fits, bind_assoc (part l.count))
              (bind_cong (part l.count) _ _ (λ b. rw fits refl))
        | inr over ↦
            rw (e, over, bind_assoc (part first), bind_assoc (part first))
              (bind_cong (part first) _ _
                (λ b. rw (over, bind_assoc (memcpy b 0 xs (l.skip + first) (elements rest))) refl))
      ]

  -- The two fetches are the copy.
  finish-copy_out :
      (ms : List Access) (xs : List A) (r : RingBuffer A) (l : Local A)
      → (l.count == 0) ≡ false
      → finish (fetch_first ∷ fetch_rest ∷ ms) xs r l
        ≡ copy_out r l.out l.place l.count >>= λ written.
            finish ms xs r (record l { out = written })
  unfolding finish access copy_out
  finish-copy_out ms xs r l some_there =
      let first : ℕ = sub32 r.capacity l.place in
      let rest : ℕ = sub32 l.count first in
      let part : ℕ → Option (List A) = λ count. memcpy l.out 0 r.storage l.place (elements count) in
      elim (Bool-cases (leb (u32 (l.place + l.count)) r.capacity)) [
        | inl fits ↦
            rw (some_there, fits, bind_assoc (part l.count))
              (bind_cong (part l.count) _ _ (λ b. rw (some_there, fits) refl))
        | inr over ↦
            rw (some_there, over, bind_assoc (part first), bind_assoc (part first))
              (bind_cong (part first) _ _ (λ b.
                rw (some_there, over, bind_assoc (memcpy b first r.storage 0 (elements rest)))
                  refl))
      ]

  -- The accesses of `Push` behind the clipping.
  finish-advance :
      (xs : List A) (r : RingBuffer A) (l : Local A)
      → finish (find_end ∷ store_first ∷ store_rest ∷ move_write ∷ move_read ∷ []) xs r l
        ≡ copy_in r xs l.skip l.count >>= λ stored. some (
          advance (record r { storage = stored }) l.count,
          record l { place = u32 (r.write_pos + l.count) },
        )
  unfolding finish access advance
  finish-advance xs r l =
      finish-copy_in (move_write ∷ move_read ∷ []) xs r
        (record l { place = u32 (r.write_pos + l.count) }) refl

  -- Behind the clipping, and behind the limit on the count, a call goes on as in Ring.
  complete-push_held :
      (granted : Bool) (xs : List A) (r : RingBuffer A) (l : Local A)
      → finish (find_end ∷ store_first ∷ store_rest ∷ move_write ∷ move_read ∷ []) xs r l
          >>= return_from (push granted xs)
        ≡ Ring.push_held r xs l.skip l.count >>= as_pushed
  unfolding Ring.push_held
  complete-push_held granted xs r l =
      let stored : Option (List A) = copy_in r xs l.skip l.count in
      rw (finish-advance xs r l, bind_assoc stored, bind_assoc stored) refl

  complete-get_last_held :
      (granted : Bool) (out : List A) (r : RingBuffer A) (l : Local A)
      → finish (find_start ∷ fetch_first ∷ fetch_rest ∷ []) [] r l
          >>= return_from (get_last granted out)
        ≡ Ring.get_last_held r l.out l.count >>= as_got
  unfolding finish access Ring.get_last_held
  complete-get_last_held granted out r l =
      let place : ℕ = sub32 (u32 (r.write_pos + r.capacity)) l.count % r.capacity in
      let written : Option (List A) = copy_out r l.out place l.count in
      elim (zero_or_not l.count) [
        | inl none_there ↦ rw none_there refl
        | inr some_there ↦
            ap (λ o. o >>= return_from (get_last granted out))
              (finish-copy_out [] [] r (record l { place = place }) some_there)
            ∙ rw (some_there, bind_assoc written, bind_assoc written) refl
      ]

  complete-read_held :
      (granted : Bool) (out : List A) (r : RingBuffer A) (l : Local A)
      → finish (read_start ∷ fetch_first ∷ fetch_rest ∷ drop_read ∷ []) [] r l
          >>= return_from (read granted out)
        ≡ Ring.read_held r l.out l.count >>= as_got
  unfolding finish access Ring.read_held
  complete-read_held granted out r l =
      let written : Option (List A) = copy_out r l.out r.read_pos l.count in
      elim (zero_or_not l.count) [
        | inl none_there ↦ rw none_there refl
        | inr some_there ↦
            ap (λ o. o >>= return_from (read granted out))
              (finish-copy_out (drop_read ∷ []) [] r (record l { place = r.read_pos }) some_there)
            ∙ rw (some_there, bind_assoc written, bind_assoc written) refl
      ]

  -- A call whose mutex attempt is granted, from the mutex on.
  pub complete-step :
      (c : Call A) (r : RingBuffer A)
      → is_void r c ≡ false
      → is_granted c ≡ true
      → complete c (program c) (take_mutex r) (locals_of c) ≡ step r c
  unfolding complete finish access step Ring.push Ring.get_last Ring.read
  complete-step (push granted xs) r there done =
      let l : Local A = locals_of (push granted xs) in
      elim (Bool-cases (ltb r.capacity (length xs))) [
        | inl over ↦
            rw (there, done, over)
              (complete-push_held granted xs (take_mutex r)
                (record l { skip = sub32 l.count r.capacity; count = r.capacity }))
        | inr fits ↦ rw (there, done, fits) (complete-push_held granted xs (take_mutex r) l)
      ]
  complete-step (get_last granted out) r there done =
      let l : Local A = locals_of (get_last granted out) in
      rw (there, done)
        (complete-get_last_held granted out (take_mutex r)
          (record l { count = min l.count r.filled }))
  complete-step (read granted out) r there done =
      let l : Local A = locals_of (read granted out) in
      rw (there, done)
        (complete-read_held granted out (take_mutex r) (record l { count = min l.count r.filled }))
