-- ===== src/Prelude/Int.antt =====
-- Signed integers over the native numbers, and Go's 64-bit `int` on top of them.
use Prim.Native.Nat.{ℕ, suc, ◌+◌, ◌-◌, ◌%◌, ◌^◌, ◌≤◌, ◌<◌}
use mathlib.Core.Path.{◌≡◌, refl}
use mathlib.Core.Logic.{◌↔◌}
use mathlib.Core.Bool.{Bool, true}
use native.Mathlib.Omega.{arith}
use notmanytuples.Prelude.Tests.{ltb, leb, eqb, if◌then◌else◌, Comparable}

-- `negsuc n` is -(n + 1).
pub data ℤ : Type 0 where
  pos : ℕ → ℤ
  negsuc : ℕ → ℤ

abbrev pub pos_part : ℤ → ℕ
pos_part (pos n) = n
pos_part (negsuc n) = 0

abbrev pub neg_part : ℤ → ℕ
neg_part (pos n) = 0
neg_part (negsuc n) = suc n

-- a - b, as an integer.
abbrev pub sub_ℕ : ℕ → ℕ → ℤ
sub_ℕ a b = if leb b a then pos (a - b) else negsuc (b - a - 1)

infixl 65 ◌+ℤ◌ ◌-ℤ◌
infix 50 ◌≤ℤ◌ ◌<ℤ◌
unfoldable pub ◌+ℤ◌ : ℤ → ℤ → ℤ
a +ℤ b = sub_ℕ (pos_part a + pos_part b) (neg_part a + neg_part b)

unfoldable pub ◌-ℤ◌ : ℤ → ℤ → ℤ
a -ℤ b = sub_ℕ (pos_part a + neg_part b) (neg_part a + pos_part b)

abbrev pub ◌≤ℤ◌ : ℤ → ℤ → Type 0
a ≤ℤ b = pos_part a + neg_part b ≤ pos_part b + neg_part a

abbrev pub ◌<ℤ◌ : ℤ → ℤ → Type 0
a <ℤ b = pos_part a + neg_part b < pos_part b + neg_part a

-- `a < b` and `a == b` of two `int`s, as tests.
abbrev pub int_lt : ℤ → ℤ → Bool
int_lt a b = ltb (pos_part a + neg_part b) (pos_part b + neg_part a)

abbrev pub int_eq : ℤ → ℤ → Bool
int_eq a b = eqb (pos_part a + neg_part b) (pos_part b + neg_part a)

pub eq_of_parts : (a b : ℤ) → pos_part a + neg_part b ≡ pos_part b + neg_part a → a ≡ b
eq_of_parts a b h = ground arith

pub int_eq_iff : (a b : ℤ) → (int_eq a b ≡ true) ↔ (a ≡ b)
int_eq_iff a b = ground arith

instance abbrev pub int_Eq : Comparable ℤ
int_Eq = record { test = int_eq; test_iff = int_eq_iff }

pub +ℤ_parts :
    (a b : ℤ)
    → pos_part (a +ℤ b) + neg_part a + neg_part b ≡ neg_part (a +ℤ b) + pos_part a + pos_part b
unfolding ◌+ℤ◌
+ℤ_parts a b = ground arith

pub -ℤ_parts :
    (a b : ℤ)
    → pos_part (a -ℤ b) + neg_part a + pos_part b ≡ neg_part (a -ℤ b) + pos_part a + neg_part b
unfolding ◌-ℤ◌
-ℤ_parts a b = ground arith

pub ruleset int_laws = (arith, +ℤ_parts, -ℤ_parts, eq_of_parts)

-- Go's `int` and `int64`: results are reduced to the range -2^63 .. 2^63 - 1.
wrap_bits : ℕ → ℕ
wrap_bits n = n % 2 ^ 64

unfoldable pub to_int64 : ℤ → ℤ
unfolding wrap_bits
to_int64 (pos n) = let r = wrap_bits n in if ltb r (2 ^ 63) then pos r else negsuc (2 ^ 64 - 1 - r)
to_int64 (negsuc n) =
    let r = wrap_bits n in if ltb r (2 ^ 63) then negsuc r else pos (2 ^ 64 - 1 - r)

abbrev pub IsInt64 : ℤ → Type 0
IsInt64 a = (pos_part a < 2 ^ 63) × (neg_part a ≤ 2 ^ 63)

infixl 65 ◌+int◌
-- `a + b` of two `int`s.
unfoldable pub ◌+int◌ : ℤ → ℤ → ℤ
unfolding to_int64 ◌+ℤ◌
a +int b = to_int64 (a +ℤ b)

pub to_int64_fits : (a : ℤ) → IsInt64 a → to_int64 a ≡ a
unfolding to_int64
to_int64_fits (pos n) h = ground arith
to_int64_fits (negsuc n) h = ground arith

-- In range, `+` is the sum of integers.
pub +int_fits : (a b : ℤ) → IsInt64 (a +ℤ b) → a +int b ≡ a +ℤ b
unfolding ◌+int◌
+int_fits a b h = to_int64_fits (a +ℤ b) h

wraps_at_the_top : pos (2 ^ 63 - 1) +int pos 1 ≡ negsuc (2 ^ 63 - 1)
unfolding ◌+int◌
wraps_at_the_top = refl
