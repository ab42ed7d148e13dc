-- ===== src/Prelude/Lists.antt =====
-- Lists measured by native numbers, predicates over lists, and filters by a Boolean test.
use Prim.Native.Nat.{ℕ, zero, suc}
use mathlib.Core.Path.{◌≡◌, refl, subst, sym, ap, ◌∙◌}
use mathlib.Core.Logic.{◌≢◌, ◌⊎◌, inl, inr}
use mathlib.Core.Bool.{Bool, true, false}
use mathlib.Core.Option.{Option, none, some}
use mathlib.Core.List.{List, [], ◌∷◌, map}
use native.Mathlib.Omega.{arith}
use notmanytuples.Prelude.Tests.{if◌then◌else◌, Bool-cases}

module _ {ℓ} {A : Type ℓ} where
  abbrev pub length : List A → ℕ
  length [] = 0
  length (x ∷ xs) = suc (length xs)

  abbrev pub get_elem? : List A → ℕ → Option A
  get_elem? [] i = none
  get_elem? (x ∷ xs) zero = some x
  get_elem? (x ∷ xs) (suc i) = get_elem? xs i

  -- The elements that pass a test.
  abbrev pub keep : (A → Bool) → List A → List A
  keep p [] = []
  keep p (x ∷ xs) = let rest = keep p xs in if p x then x ∷ rest else rest

  -- How many elements pass a test.
  abbrev pub count_if : (A → Bool) → List A → ℕ
  count_if p [] = 0
  count_if p (x ∷ xs) = let rest = count_if p xs in if p x then suc rest else rest

  abbrev pub any_of : (A → Bool) → List A → Bool
  any_of p [] = false
  any_of p (x ∷ xs) = let rest = any_of p xs in if p x then true else rest

module _ {A : Type 0} where
  -- Membership that the tactics take apart.
  abbrev pub In : A → List A → Type 0
  In a [] = ⊥
  In a (x ∷ xs) = (a ≡ x) ⊎ In a xs

module _ {ℓ κ} {A : Type ℓ} where
  abbrev pub All : (A → Type κ) → List A → Type κ
  All P [] = Unit
  All P (x ∷ xs) = P x × All P xs

module _ {ℓ κ μ} {A : Type ℓ} where
  pub All-map :
      {P : A → Type κ} {Q : A → Type μ} (xs : List A) → ((a : A) → P a → Q a) → All P xs → All Q xs
  All-map [] f h = tt
  All-map (x ∷ xs) f h = (f x h.0, All-map xs f h.1)

module _ {κ} {A : Type 0} where
  pub All-In : (P : A → Type κ) (a : A) (xs : List A) → All P xs → In a xs → P a
  All-In P a [] h m = absurd m
  All-In P a (x ∷ xs) h (inl e) = subst P (sym e) h.0
  All-In P a (x ∷ xs) h (inr m) = All-In P a xs h.1 m

  pub All-intro : (P : A → Type κ) (xs : List A) → ((a : A) → In a xs → P a) → All P xs
  All-intro P [] h = tt
  All-intro P (x ∷ xs) h = (h x (inl (λ i. x)), All-intro P xs (λ a m. h a (inr m)))

module _ {A : Type 0} (p : A → Bool) where
  pub In-keep : (a : A) (xs : List A) → In a (keep p xs) → In a xs × (p a ≡ true)
  In-keep a [] m = absurd m
  In-keep a (x ∷ xs) m = ground (arith, In-keep a xs)

  pub In-keep_of : (a : A) (xs : List A) → In a xs → p a ≡ true → In a (keep p xs)
  In-keep_of a [] m h = absurd m
  In-keep_of a (x ∷ xs) m h = ground (arith, In-keep_of a xs)

  pub any_of_iff_In : (xs : List A) → any_of p xs ≡ true → (a : A) × In a xs × (p a ≡ true)
  any_of_iff_In (x ∷ xs) h = elim (Bool-cases (p x)) [
    | inl e ↦ (x, inl (λ i. x), e)
    | inr e ↦ let (a, m, t) = any_of_iff_In xs (ground arith) in (a, inr m, t)
  ]
  any_of_iff_In [] h = ground arith

  pub any_of-In : (a : A) (xs : List A) → In a xs → p a ≡ true → any_of p xs ≡ true
  any_of-In a [] m h = absurd m
  any_of-In a (x ∷ xs) m h = ground (arith, any_of-In a xs)

module _ {A : Type 0} where
  pub get_elem?-In : (xs : List A) (i : ℕ) (a : A) → get_elem? xs i ≡ some a → In a xs
  get_elem?-In [] i a h = absurd (ground arith)
  get_elem?-In (x ∷ xs) zero a h = inl (ground arith)
  get_elem?-In (x ∷ xs) (suc i) a h = inr (get_elem?-In xs i a h)

  pub In-get_elem? : (a : A) (xs : List A) → In a xs → (i : ℕ) × (get_elem? xs i ≡ some a)
  In-get_elem? a [] m = absurd m
  In-get_elem? a (x ∷ xs) (inl e) = (zero, ground arith)
  In-get_elem? a (x ∷ xs) (inr m) = let (i, h) = In-get_elem? a xs m in (suc i, h)

  -- A relation holds of any element and any that follows it.
  abbrev pub IsPairwise : (A → A → Type 0) → List A → Type 0
  IsPairwise R [] = Unit
  IsPairwise R (x ∷ xs) = All (R x) xs × IsPairwise R xs

module _ {A : Type 0} (R S : A → A → Type 0) where
  pub IsPairwise-map :
      (xs : List A)
      → ((a b : A) → In a xs → In b xs → R a b → S a b)
      → IsPairwise R xs
      → IsPairwise S xs
  IsPairwise-map [] f p = tt
  IsPairwise-map (x ∷ xs) f p = (
    All-intro (S x) xs (λ y m. f x y (inl (λ i. x)) (inr m) (All-In (R x) y xs p.0 m)),
    IsPairwise-map xs (λ a b ma mb. f a b (inr ma) (inr mb)) p.1,
  )

module _ {A B : Type 0} (key : A → B) where
  -- Where no two elements share a key, elements with the same key are the same.
  pub unique_by_key :
      (xs : List A) (a b : A)
      → IsPairwise (λ x y. key x ≢ key y) xs
      → In a xs
      → In b xs
      → key a ≡ key b
      → a ≡ b
  unique_by_key [] a b d ma mb e = absurd ma
  unique_by_key (x ∷ xs) a b d (inl p) (inl q) e = p ∙ sym q
  unique_by_key (x ∷ xs) a b d (inl p) (inr q) e =
      absurd (All-In (λ y. key x ≢ key y) b xs d.0 q (ap key (sym p) ∙ e))
  unique_by_key (x ∷ xs) a b d (inr p) (inl q) e =
      absurd (All-In (λ y. key x ≢ key y) a xs d.0 p (ap key (sym q) ∙ sym e))
  unique_by_key (x ∷ xs) a b d (inr p) (inr q) e = unique_by_key xs a b d.1 p q e

  pub In-map : (b : B) (xs : List A) → In b (map key xs) → (a : A) × In a xs × (b ≡ key a)
  In-map b [] m = absurd m
  In-map b (x ∷ xs) (inl e) = (x, inl (λ i. x), e)
  In-map b (x ∷ xs) (inr m) = let (a, there, e) = In-map b xs m in (a, inr there, e)

  pub In-map_of : (a : A) (xs : List A) → In a xs → In (key a) (map key xs)
  In-map_of a [] m = absurd m
  In-map_of a (x ∷ xs) (inl e) = inl (ap key e)
  In-map_of a (x ∷ xs) (inr m) = inr (In-map_of a xs m)

module _ {A : Type 0} (p : A → Bool) where
  pub keep-All : (P : A → Type 0) (xs : List A) → All P xs → All P (keep p xs)
  keep-All P xs h = All-intro P (keep p xs) (λ a m. All-In P a xs h (In-keep p a xs m).0)

  pub keep-IsPairwise :
      (R : A → A → Type 0) (xs : List A) → IsPairwise R xs → IsPairwise R (keep p xs)
  keep-IsPairwise R [] h = tt
  keep-IsPairwise R (x ∷ xs) h = elim (Bool-cases (p x)) [
    | inl e ↦ rw e (keep-All (R x) xs h.0, keep-IsPairwise R xs h.1)
    | inr e ↦ rw e (keep-IsPairwise R xs h.1)
  ]

  pub keep_none : (xs : List A) → ((a : A) → In a xs → p a ≡ false) → keep p xs ≡ []
  keep_none [] h = refl
  keep_none (x ∷ xs) h = rw (h x (inl (λ i. x)), keep_none xs (λ a m. h a (inr m))) refl
