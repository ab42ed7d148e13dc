-- ===== src/Prelude/Sort.antt =====
-- `sort.Slice` with a strict comparison: a stable insertion sort. Go promises no more than a sorted
-- permutation of the input, and the theorems about callers use no more.
use Prim.Native.Nat.{ℕ, zero, suc}
use mathlib.Core.Path.{◌≡◌, refl, subst}
use mathlib.Core.Logic.{◌⊎◌, inl, inr}
use mathlib.Core.Bool.{Bool, true, false}
use mathlib.Core.Option.{some}
use mathlib.Core.List.{List, [], ◌∷◌, Perm}
use mathlib.Core.List.Perm
use native.Mathlib.Omega.{arith}
use notmanytuples.Prelude.Tests.{if◌then◌else◌, Bool-cases}
use notmanytuples.Prelude.Lists.{
  get_elem?, count_if, In, All, All-In, All-intro, IsPairwise, get_elem?-In,
}
use notmanytuples.Prelude.Best.{IsStrict}

module _ {A : Type 0} (less : A → A → Bool) where
  unfoldable pub sort_insert : A → List A → List A
  sort_insert x [] = x ∷ []
  sort_insert x (y ∷ ys) = let rest = sort_insert x ys in if less y x then y ∷ rest else x ∷ y ∷ ys

  unfoldable pub sort_slice : List A → List A
  unfolding sort_insert
  sort_slice [] = []
  sort_slice (x ∷ xs) = sort_insert x (sort_slice xs)

  sort_insert-perm : (x : A) (ys : List A) → Perm (sort_insert x ys) (x ∷ ys)
  unfolding sort_insert
  sort_insert-perm x [] = Perm.refl (x ∷ [])
  sort_insert-perm x (y ∷ ys) = elim (Bool-cases (less y x)) [
    | inl p ↦ rw p (Perm.trans (Perm.cons y (sort_insert-perm x ys)) (Perm.swap x y ys))
    | inr p ↦ rw p (Perm.refl (x ∷ y ∷ ys))
  ]

  pub sort_slice-perm : (xs : List A) → Perm (sort_slice xs) xs
  unfolding sort_slice
  sort_slice-perm [] = Perm.refl []
  sort_slice-perm (x ∷ xs) =
      Perm.trans (sort_insert-perm x (sort_slice xs)) (Perm.cons x (sort_slice-perm xs))

  In-sort_insert : (a x : A) (ys : List A) → In a (sort_insert x ys) → (a ≡ x) ⊎ In a ys
  unfolding sort_insert
  In-sort_insert a x [] m = m
  In-sort_insert a x (y ∷ ys) m = ground (arith, In-sort_insert a x ys)

  sort_insert-In : (a x : A) (ys : List A) → (a ≡ x) ⊎ In a ys → In a (sort_insert x ys)
  unfolding sort_insert
  sort_insert-In a x [] m = m
  sort_insert-In a x (y ∷ ys) m = ground (arith, sort_insert-In a x ys)

  pub In-sort_slice : (a : A) (xs : List A) → In a (sort_slice xs) → In a xs
  unfolding sort_slice
  In-sort_slice a [] m = m
  In-sort_slice a (x ∷ xs) m =
      ground (arith, In-sort_insert a x (sort_slice xs), In-sort_slice a xs)

  pub sort_slice-In : (a : A) (xs : List A) → In a xs → In a (sort_slice xs)
  unfolding sort_slice
  sort_slice-In a [] m = m
  sort_slice-In a (x ∷ xs) m =
      ground (arith, sort_insert-In a x (sort_slice xs), sort_slice-In a xs)

  count_if-sort_insert :
      (p : A → Bool) (x : A) (ys : List A) → count_if p (sort_insert x ys) ≡ count_if p (x ∷ ys)
  unfolding sort_insert
  count_if-sort_insert p x [] = refl
  count_if-sort_insert p x (y ∷ ys) = ground (arith, count_if-sort_insert p x ys)

  pub count_if-sort_slice :
      (p : A → Bool) (xs : List A) → count_if p (sort_slice xs) ≡ count_if p xs
  unfolding sort_slice
  count_if-sort_slice p [] = refl
  count_if-sort_slice p (x ∷ xs) =
      ground (arith, count_if-sort_insert p x (sort_slice xs), count_if-sort_slice p xs)

  -- No element stands after one that it should precede.
  abbrev pub IsSorted : List A → Type 0
  IsSorted = IsPairwise (λ x y. less y x ≡ false)

  -- Each element precedes all that follow.
  abbrev pub IsRanked : List A → Type 0
  IsRanked = IsPairwise (λ x y. less x y ≡ true)

  -- Any two elements at different places are comparable.
  abbrev pub IsComparable : List A → Type 0
  IsComparable = IsPairwise (λ x y. (less x y ≡ true) ⊎ (less y x ≡ true))

  module _ (R : A → A → Type 0) (symmetric : (a b : A) → R a b → R b a) where
    sort_insert-IsPairwise :
        (x : A) (ys : List A) → All (R x) ys → IsPairwise R ys → IsPairwise R (sort_insert x ys)
    unfolding sort_insert
    sort_insert-IsPairwise x [] c r = (tt, tt)
    sort_insert-IsPairwise x (y ∷ ys) c r = elim (Bool-cases (less y x)) [
      | inl p ↦ rw p (
        All-intro (R y) (sort_insert x ys) (λ z m. elim (In-sort_insert z x ys m) [
          | inl e ↦ rw e (symmetric x y c.0)
          | inr old ↦ All-In (R y) z ys r.0 old
        ]),
        sort_insert-IsPairwise x ys c.1 r.1,
      )
      | inr p ↦ rw p (c, r)
    ]

    -- A symmetric relation among all elements does not depend on their order.
    pub sort_slice-IsPairwise : (xs : List A) → IsPairwise R xs → IsPairwise R (sort_slice xs)
    unfolding sort_slice
    sort_slice-IsPairwise [] c = tt
    sort_slice-IsPairwise (x ∷ xs) c =
        sort_insert-IsPairwise x (sort_slice xs)
          (All-intro (R x) (sort_slice xs) (λ y m. All-In (R x) y xs c.0 (In-sort_slice y xs m)))
          (sort_slice-IsPairwise xs c.1)

  module _ (strict : IsStrict less) where
    open strict use {irrefl, trans}

    asym : (a b : A) → less a b ≡ true → less b a ≡ false
    asym a b h = ground (arith, irrefl a, trans a b a)

    sort_insert-IsRanked :
        (x : A) (ys : List A)
        → All (λ y. (less x y ≡ true) ⊎ (less y x ≡ true)) ys
        → IsRanked ys
        → IsRanked (sort_insert x ys)
    unfolding sort_insert
    sort_insert-IsRanked x [] c r = (tt, tt)
    sort_insert-IsRanked x (y ∷ ys) c r = elim (Bool-cases (less y x)) [
      | inl p ↦ rw p (
        All-intro (λ z. less y z ≡ true) (sort_insert x ys)
            (λ z m. elim (In-sort_insert z x ys m) [
              | inl e ↦ rw e p
              | inr old ↦ All-In (λ w. less y w ≡ true) z ys r.0 old
            ]),
        sort_insert-IsRanked x ys c.1 r.1,
      )
      | inr p ↦
          let first : less x y ≡ true = ground arith in
          rw p (
            (
              first,
              All-intro (λ z. less x z ≡ true) ys
                  (λ z m. trans x y z first (All-In (λ w. less y w ≡ true) z ys r.0 m)),
            ),
            r,
          )
    ]

    pub sort_slice-IsRanked : (xs : List A) → IsComparable xs → IsRanked (sort_slice xs)
    unfolding sort_slice
    sort_slice-IsRanked [] c = tt
    sort_slice-IsRanked (x ∷ xs) c =
        sort_insert-IsRanked x (sort_slice xs)
          (All-intro (λ y. (less x y ≡ true) ⊎ (less y x ≡ true)) (sort_slice xs)
            (λ y m.
              All-In (λ z. (less x z ≡ true) ⊎ (less z x ≡ true)) y xs c.0 (In-sort_slice y xs m)))
          (sort_slice-IsRanked xs c.1)

    count_if_none :
        (e : A) (xs : List A) → All (λ y. less e y ≡ true) xs → count_if (λ y. less y e) xs ≡ 0
    count_if_none e [] h = refl
    count_if_none e (x ∷ xs) h = ground (arith, asym e x, count_if_none e xs)

    -- In a ranked list the place of an element is the number of elements before it in the order.
    pub IsRanked-index :
        (xs : List A) (i : ℕ) (e : A)
        → IsRanked xs
        → get_elem? xs i ≡ some e
        → count_if (λ y. less y e) xs ≡ i
    IsRanked-index [] i e r h = absurd (ground arith)
    IsRanked-index (x ∷ xs) zero e r h =
        let same : x ≡ e = ground arith in
        let base : count_if (λ y. less y x) (x ∷ xs) ≡ 0 =
          ground (arith, irrefl x, count_if_none x xs) in
        subst (λ z. count_if (λ y. less y z) (x ∷ xs) ≡ 0) same base
    IsRanked-index (x ∷ xs) (suc i) e r h =
        let before = All-In (λ y. less x y ≡ true) e xs r.0 (get_elem?-In xs i e h) in
        ground (arith, IsRanked-index xs i e)

  -- Elements that compare equal to a third compare equal to each other.
  pub record IsWeak : Type 0 where
    pub neg_trans : (a b c : A) → less a b ≡ false → less b c ≡ false → less a c ≡ false
    pub asym : (a b : A) → less a b ≡ true → less b a ≡ false

  module _ (weak : IsWeak) where
    sort_insert-IsSorted : (x : A) (ys : List A) → IsSorted ys → IsSorted (sort_insert x ys)
    unfolding sort_insert
    sort_insert-IsSorted x [] s = (tt, tt)
    sort_insert-IsSorted x (y ∷ ys) s = elim (Bool-cases (less y x)) [
      | inl p ↦ rw p (
        All-intro (λ z. less z y ≡ false) (sort_insert x ys)
            (λ z m. elim (In-sort_insert z x ys m) [
              | inl e ↦ rw e (weak.asym y x p)
              | inr old ↦ All-In (λ w. less w y ≡ false) z ys s.0 old
            ]),
        sort_insert-IsSorted x ys s.1,
      )
      | inr p ↦ rw p (
        (
          p,
          All-intro (λ z. less z x ≡ false) ys
              (λ z m. weak.neg_trans z y x (All-In (λ w. less w y ≡ false) z ys s.0 m) p),
        ),
        s,
      )
    ]

    pub sort_slice-IsSorted : (xs : List A) → IsSorted (sort_slice xs)
    unfolding sort_slice
    sort_slice-IsSorted [] = tt
    sort_slice-IsSorted (x ∷ xs) = sort_insert-IsSorted x (sort_slice xs) (sort_slice-IsSorted xs)
