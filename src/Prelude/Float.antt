-- ===== src/Prelude/Float.antt =====
-- `float64` as an interface: the operations that the program uses, and laws of IEEE 754 for them.
use mathlib.Core.Path.{◌≡◌}
use mathlib.Core.Bool.{Bool, true, false}
use notmanytuples.Prelude.Int.{ℤ}

pub record Float (F : Type 0) : Type 0 where
  -- `float64(n)`, `a + b`, `a - b`, `a * b`, `a / b`
  pub of_int : ℤ → F
  pub add : F → F → F
  pub sub : F → F → F
  pub mul : F → F → F
  pub div : F → F → F
  -- `a == b` and `a < b`
  pub eq : F → F → Bool
  pub lt : F → F → Bool
  -- `int(a)`, `math.Round`, `math.Max`, `math.Exp` and `Duration.Seconds`
  pub to_int : F → ℤ
  pub round : F → F
  pub max : F → F → F
  pub exp : F → F
  pub seconds : ℤ → F
  -- `math.IsNaN` and `math.IsInf(x, 0)`
  pub is_nan : F → Bool
  pub is_inf : F → Bool

-- The laws of `==` and `<`, which hold of NaN too.
pub record FloatOrder {F : Type 0} (fl : Float F) : Type 0 where
  pub eq_symm : (a b : F) → fl.eq a b ≡ true → fl.eq b a ≡ true
  pub eq_trans : (a b c : F) → fl.eq a b ≡ true → fl.eq b c ≡ true → fl.eq a c ≡ true
  pub lt_irrefl : (a : F) → fl.lt a a ≡ false
  pub lt_trans : (a b c : F) → fl.lt a b ≡ true → fl.lt b c ≡ true → fl.lt a c ≡ true
  pub lt_ne : (a b : F) → fl.lt a b ≡ true → fl.eq a b ≡ false
  pub eq_lt : (a b c : F) → fl.eq a b ≡ true → fl.lt b c ≡ true → fl.lt a c ≡ true
  pub lt_eq : (a b c : F) → fl.lt a b ≡ true → fl.eq b c ≡ true → fl.lt a c ≡ true
  pub lt_total :
      (a b : F)
      → fl.is_nan a ≡ false
      → fl.is_nan b ≡ false
      → fl.eq a b ≡ false
      → fl.lt a b ≡ false
      → fl.lt b a ≡ true
