-- ===== src/Trigger/Windows.antt =====
-- Runs of positive windows: the counting scan against the plain statement that a run is there.
use vaani_edge.Base.{
  ℕ, zero, suc, ◌≤◌, ◌<◌, ◌≡◌, ◌≢◌, ◌∙◌, refl, sym, ap, inl, inr, Bool, true, false, List, [], ◌∷◌,
  ◌++◌, arith, length, replicate, leb, if◌then◌else◌, length-append, length-replicate, Bool-cases,
}

-- Somewhere in `bs` stand `n` times `true` in a row.
abbrev pub HasRun : ℕ → List Bool → Type 0
HasRun n bs = (xs : List Bool) × (ys : List Bool) × (bs ≡ xs ++ (replicate n true ++ ys))

-- The scan of `TriggerStateMachine`, which has counted `c` in a row so far.
unfoldable pub scan : ℕ → ℕ → List Bool → Bool
scan n c [] = false
scan n c (true ∷ bs) = let rest = scan n (suc c) bs in if leb n (suc c) then true else rest
scan n c (false ∷ bs) = scan n 0 bs

pub scan_cons :
    (n c : ℕ) (b : Bool) (bs : List Bool)
    → scan n c (b ∷ bs)
      ≡ (if b then (if leb n (suc c) then true else scan n (suc c) bs) else scan n 0 bs)
unfolding scan
scan_cons n c true bs = refl
scan_cons n c false bs = refl

replicate-snoc :
    (c : ℕ) (bs : List Bool) → replicate (suc c) true ++ bs ≡ replicate c true ++ (true ∷ bs)
replicate-snoc zero bs = refl
replicate-snoc (suc c) bs = ap (λ l. true ∷ l) (replicate-snoc c bs)

HasRun-append : (n : ℕ) (zs bs : List Bool) → HasRun n bs → HasRun n (zs ++ bs)
HasRun-append n [] bs h = h
HasRun-append n (z ∷ zs) bs h =
    let (xs, ys, e) = HasRun-append n zs bs h in (z ∷ xs, ys, ap (λ l. z ∷ l) e)

-- Too few in a row, and then a negative one, do not take part in a run.
not_a_run :
    (n c : ℕ) (bs ys : List Bool)
    → c < n
    → replicate c true ++ (false ∷ bs) ≢ replicate n true ++ ys
not_a_run zero c bs ys h e = elim h [ ]
not_a_run (suc n) zero bs ys h e = cc
not_a_run (suc n) (suc c) bs ys h e = not_a_run n c bs ys (omega arith) (cc)

HasRun-skip :
    (n c : ℕ) (bs xs ys : List Bool)
    → c < n
    → replicate c true ++ (false ∷ bs) ≡ xs ++ (replicate n true ++ ys)
    → HasRun n bs
HasRun-skip n c bs [] ys h e = absurd (not_a_run n c bs ys h e)
HasRun-skip n zero bs (x ∷ xs) ys h e = (xs, ys, cc)
HasRun-skip n (suc c) bs (x ∷ xs) ys h e = HasRun-skip n c bs xs ys (omega arith) (cc)

pub HasRun-length : (n : ℕ) (bs : List Bool) → HasRun n bs → n ≤ length bs
HasRun-length n bs (xs, ys, e) = omega (
  arith,
  ap length e,
  length-append xs (replicate n true ++ ys),
  length-append (replicate n true) ys,
  length-replicate n true,
)

-- The scan finds a run exactly when one is there.
pub scan→HasRun :
    (n c : ℕ) (bs : List Bool) → c < n → scan n c bs ≡ true → HasRun n (replicate c true ++ bs)
unfolding scan
scan→HasRun n c [] h e = cc
scan→HasRun n c (false ∷ bs) h e =
    HasRun-append n (replicate c true) (false ∷ bs)
      (HasRun-append n (false ∷ []) bs (scan→HasRun n 0 bs (omega arith) e))
scan→HasRun n c (true ∷ bs) h e = elim (Bool-cases (leb n (suc c))) [
  | inl enough ↦
      let full : n ≡ suc c = ground arith in
      ([], bs, sym (replicate-snoc c bs) ∙ ap (λ k. replicate k true ++ bs) (sym full))
  | inr more ↦ rw (← replicate-snoc c bs) (scan→HasRun n (suc c) bs (ground arith) (ground arith))
]

pub HasRun→scan :
    (n c : ℕ) (bs : List Bool) → c < n → HasRun n (replicate c true ++ bs) → scan n c bs ≡ true
unfolding scan
HasRun→scan n c [] h run = absurd (
    omega (
      arith,
      HasRun-length n (replicate c true ++ []) run,
      length-append (replicate c true) [],
      length-replicate c true,
    ))
HasRun→scan n c (false ∷ bs) h (xs, ys, e) =
    HasRun→scan n 0 bs (omega arith) (HasRun-skip n c bs xs ys h e)
HasRun→scan n c (true ∷ bs) h run = elim (Bool-cases (leb n (suc c))) [
  | inl enough ↦ rw enough refl
  | inr more ↦ rw more (HasRun→scan n (suc c) bs (ground arith) (rw replicate-snoc run))
]
