-- ===== src/Ring/Stream.antt =====
-- The ring buffer behind a stream of samples, however it was cut into pushes.
use vaani_edge.Base.{
  ℕ, zero, suc, ◌+◌, ◌-◌, ◌≤◌, ◌≡◌, refl, ap, sym, subst, Bool, true, false, ◌<◌, some, ◌∙◌, List,
  [], ◌∷◌, ◌++◌, arith, length, drop, append_assoc, append-nil, length-append, length-drop,
  drop-drop, min,
}
use vaani_edge.Ring
use vaani_edge.Ring.{RingBuffer, give_mutex}
use vaani_edge.Ring.Valid.{IsValid}
use vaani_edge.Ring.Contents.{contents, keep_last, length-contents, contents-give_mutex}
use vaani_edge.Ring.Pop.{get_last-keep_last}
use vaani_edge.Ring.Total.{get_last_refused}
use vaani_edge.Ring.Push.{IsPushed}

drop-append_le :
    {A : Type 0} (n : ℕ) (xs ys : List A) → n ≤ length xs → drop n (xs ++ ys) ≡ drop n xs ++ ys
drop-append_le zero xs ys h = refl
drop-append_le (suc n) [] ys h = absurd (omega arith)
drop-append_le (suc n) (x ∷ xs) ys h = drop-append_le n xs ys (omega arith)

module _ {A : Type 0} where
  keep_last-keep_last :
      (n : ℕ) (xs ys : List A) → keep_last n (keep_last n xs ++ ys) ≡ keep_last n (xs ++ ys)
  keep_last-keep_last n xs ys =
      let d : ℕ = length xs - n in
      let part : keep_last n xs ++ ys ≡ drop d (xs ++ ys) =
        sym (drop-append_le d xs ys (omega arith)) in
      let size : length (keep_last n xs ++ ys) ≡ length xs - d + length ys =
        omega (arith, length-append (keep_last n xs) ys, length-drop d xs) in
      ap (λ (l : List A). keep_last n l) part
      ∙ drop-drop (length (drop d (xs ++ ys)) - n) d (xs ++ ys)
      ∙ ap (λ (k : ℕ). drop k (xs ++ ys))
          (omega (arith, length-drop d (xs ++ ys), length-append xs ys))

  -- The newest of the newest.
  keep_last-min :
      (p n : ℕ) (xs : List A)
      → keep_last (min p (length (keep_last n xs))) (keep_last n xs) ≡ keep_last (min p n) xs
  keep_last-min p n xs =
      let d : ℕ = length xs - n in
      let size : length (keep_last n xs) ≡ length xs - d = length-drop d xs in
      drop-drop (length (keep_last n xs) - min p (length (keep_last n xs))) d xs
      ∙ ap (λ (k : ℕ). drop k xs) (omega (arith, size))

  -- `r'` is `r` after the samples `xs`, of all the newest that fit.
  pub record IsRecorded (r : RingBuffer A) (xs : List A) (r' : RingBuffer A) : Type 0 where
    pub valid : IsValid r'
    pub same_capacity : r'.capacity ≡ r.capacity
    pub newest : contents r' ≡ keep_last r.capacity (contents r ++ xs)

  pub nothing-IsRecorded : (r : RingBuffer A) → IsValid r → IsRecorded r [] r
  nothing-IsRecorded r v =
      let none_gone : length (contents r ++ []) - r.capacity ≡ 0 =
        omega (arith, length-append (contents r) [], length-contents r v, v.filled_le) in
      record {
        valid = v;
        same_capacity = refl;
        newest =
            sym (ap (λ (k : ℕ). drop k (contents r ++ [])) none_gone ∙ append-nil (contents r));
      }

  pub IsRecorded-++ :
      (r r1 r2 : RingBuffer A) (xs ys : List A)
      → IsRecorded r xs r1
      → IsRecorded r1 ys r2
      → IsRecorded r (xs ++ ys) r2
  IsRecorded-++ r r1 r2 xs ys first later = record {
    valid = later.valid;
    same_capacity = later.same_capacity ∙ first.same_capacity;
    newest =
        later.newest
        ∙ ap (λ (k : ℕ). keep_last k (contents r1 ++ ys)) first.same_capacity
        ∙ ap (λ (l : List A). keep_last r.capacity (l ++ ys)) first.newest
        ∙ keep_last-keep_last r.capacity (contents r ++ xs) ys
        ∙ ap (λ (l : List A). keep_last r.capacity l) (append_assoc (contents r) xs ys);
  }

  pub push-IsRecorded :
      (r r1 r2 : RingBuffer A) (xs ys : List A)
      → IsPushed r xs r1
      → IsRecorded r1 ys r2
      → IsRecorded r (xs ++ ys) r2
  push-IsRecorded r r1 r2 xs ys first later =
      IsRecorded-++ r r1 r2 xs ys
        (record { valid = first.valid; same_capacity = first.same_capacity; newest = first.newest })
        later

  -- A look at the newest samples adds none.
  pub get_last-IsRecorded :
      (granted : Bool) (r r' : RingBuffer A) (out out' : List A) (count k : ℕ)
      → IsValid r
      → 0 < count
      → count ≤ length out
      → Ring.get_last granted (some out) count r ≡ some (r', out', k)
      → IsRecorded r [] r'
  get_last-IsRecorded false r r' out out' count k v pos room e =
      let both = sym (get_last_refused r out count) ∙ e in
      let same : r ≡ r' = cc in subst (IsRecorded r []) same (nothing-IsRecorded r v)
  get_last-IsRecorded true r r' out out' count k v pos room e =
      let both = sym (get_last-keep_last r out count v pos (omega arith)) ∙ e in
      let same : give_mutex r ≡ r' = cc in
      let h : IsRecorded r [] r = nothing-IsRecorded r v in
      subst (IsRecorded r []) same (record {
        valid = ground arith;
        same_capacity = refl;
        newest = contents-give_mutex r ∙ h.newest;
      })

  -- The newest samples behind a stream, by the count that the ring buffer holds.
  pub IsRecorded-keep_last :
      (p : ℕ) (r r' : RingBuffer A) (xs : List A)
      → IsRecorded r xs r'
      → keep_last (min p r'.filled) (contents r') ≡ keep_last (min p r.capacity) (contents r ++ xs)
  IsRecorded-keep_last p r r' xs h =
      ap (λ (k : ℕ). keep_last (min p k) (contents r')) (sym (length-contents r' h.valid))
      ∙ ap (λ (l : List A). keep_last (min p (length l)) l) h.newest
      ∙ keep_last-min p r.capacity (contents r ++ xs)
