-- ===== src/Result.antt =====
-- Go's `(value, error)` results: a value, or an error with no value beside it.
use mathlib.Core.Path.{◌≡◌, refl, ap}
use mathlib.Core.Logic.{◌⊎◌, inl, inr}
use native.Mathlib.Omega.{arith}

pub data Result {ℓ κ} (E : Type ℓ) (A : Type κ) : Type (ℓ ⊔ κ) where
  ok : A → Result E A
  err : E → Result E A

infixl 5 ◌>>=◌
-- `if err != nil { return nil, err }` between two steps.
abbrev pub ◌>>=◌ {ℓ κ μ} :
    {E : Type ℓ} {A : Type κ} {B : Type μ} → Result E A → (A → Result E B) → Result E B
ok a >>= f = f a
err e >>= f = err e

-- A chain that succeeds has a first step that succeeds.
pub >>=-eq-ok {ℓ κ μ} :
    {E : Type ℓ} {A : Type κ} {B : Type μ} (first : Result E A) (next : A → Result E B) {done : B}
    → first >>= next ≡ ok done
    → (value : A) × (first ≡ ok value) × (next value ≡ ok done)
>>=-eq-ok (ok value) next chain = (value, refl, chain)
>>=-eq-ok (err failure) next chain = absurd (ground arith)

pub Result-cases {ℓ κ} :
    {E : Type ℓ} {A : Type κ} (r : Result E A) → ((a : A) × (r ≡ ok a)) ⊎ ((e : E) × (r ≡ err e))
Result-cases (ok a) = inl (a, refl)
Result-cases (err e) = inr (e, refl)

-- The two steps of a function that changes a state: a failing first step is the last one.
abbrev pub and_then {ℓ κ μ ν} :
    {S : Type ℓ} {E : Type κ} {A : Type μ} {B : Type ν}
    → S × Result E A
    → (S → A → S × Result E B)
    → S × Result E B
and_then (s, ok a) next = next s a
and_then (s, err e) next = (s, err e)

pub and_then-eq-ok {ℓ κ μ ν} :
    {S : Type ℓ} {E : Type κ} {A : Type μ} {B : Type ν} (first : S × Result E A)
    (next : S → A → S × Result E B) {t : S} {done : B}
    → and_then first next ≡ (t, ok done)
    → (s : S) × (value : A) × (first ≡ (s, ok value)) × (next s value ≡ (t, ok done))
and_then-eq-ok (s, ok value) next chain = (s, value, refl, chain)
and_then-eq-ok (s, err failure) next chain = absurd (ground arith)

-- A first step that succeeds leads to the second.
pub and_then_ok {ℓ κ μ ν} :
    {S : Type ℓ} {E : Type κ} {A : Type μ} {B : Type ν} {first : S × Result E A} {s : S} {value : A}
    (next : S → A → S × Result E B)
    → first ≡ (s, ok value)
    → and_then first next ≡ next s value
and_then_ok next h = ap (λ r. and_then r next) h
