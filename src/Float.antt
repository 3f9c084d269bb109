-- ===== src/Float.antt =====
-- What the firmware does with `float`: the arithmetic, the comparisons, the conversions and the
-- functions of <cmath> that it calls, as an interface. Nothing is assumed of them here.
use vaani_edge.Base.{ℕ, ◌+◌, ◌-◌, ◌*◌, ◌/◌, Bool, ltb, leb, ℤ, pos, to_ℕ}

-- `lit m e` is the decimal literal m * 10 ^ -e, and `to_int` is static_cast<int>.
pub record Float (F : Type 0) : Type 0 where
  pub lit : ℕ → ℕ → F
  pub of_int : ℤ → F
  pub to_int : F → ℤ
  pub add : F → F → F
  pub sub : F → F → F
  pub mul : F → F → F
  pub div : F → F → F
  pub neg : F → F
  pub lt : F → F → Bool
  pub ge : F → F → Bool
  pub cos : F → F
  pub sin : F → F
  pub floor : F → F
  pub sqrt : F → F
  pub log : F → F
  pub log10 : F → F
  pub pow : F → F → F

-- A stand-in on whole hundredths, with 0 for what it cannot express, to run the code with.
instance abbrev pub hundredths : Float ℕ
hundredths = record {
  lit = λ m e. m;
  of_int = λ z. to_ℕ z * 100;
  to_int = λ x. pos (x / 100);
  add = λ x y. x + y;
  sub = λ x y. x - y;
  mul = λ x y. x * y / 100;
  div = λ x y. x * 100 / y;
  neg = λ x. 0;
  lt = ltb;
  ge = λ x y. leb y x;
  cos = λ x. 100;
  sin = λ x. 0;
  floor = λ x. x / 100 * 100;
  sqrt = λ x. x;
  log = λ x. x;
  log10 = λ x. x;
  pow = λ x y. x;
}
