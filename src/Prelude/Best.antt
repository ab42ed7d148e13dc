-- ===== src/Prelude/Best.antt =====
-- Loops that keep the best element met so far, one for each key of a map or one in all.
use Prim.Native.String.{String}
use mathlib.Core.Path.{◌≡◌, refl, sym, ◌∙◌}
use mathlib.Core.Logic.{◌⊎◌, inl, inr}
use mathlib.Core.Bool.{Bool, true, false}
use mathlib.Core.Option.{Option, none, some}
use mathlib.Core.List.{List, [], ◌∷◌}
use native.Mathlib.Omega.{arith}
use notmanytuples.Prelude.Tests.{if◌then◌else◌, Bool-cases, Comparable, ◌==◌, string_eq}
use notmanytuples.Prelude.Lists.{In, keep}
use notmanytuples.Prelude.Dict.{Dict, lookup, insert, lookup-insert, IsDict, insert-IsDict}

-- `better` is a strict partial order.
pub record IsStrict {ℓ} {A : Type ℓ} (better : A → A → Bool) : Type ℓ where
  pub irrefl : (a : A) → better a a ≡ false
  pub trans : (a b c : A) → better a b ≡ true → better b c ≡ true → better a c ≡ true

module _ {A V : Type 0} (merge : Option V → A → V) where
  -- `acc = merge(acc, x)` over a list; `none` is an accumulator that is not set.
  unfoldable pub merge_all : Option V → List A → Option V
  merge_all o [] = o
  merge_all o (x ∷ xs) = merge_all (some (merge o x)) xs

  merge_all-some : (v : V) (xs : List A) → (w : V) × (merge_all (some v) xs ≡ some w)
  unfolding merge_all
  merge_all-some v [] = (v, refl)
  merge_all-some v (x ∷ xs) = merge_all-some (merge (some v) x) xs

  pub merge_all-none : (xs : List A) → merge_all none xs ≡ none → xs ≡ []
  unfolding merge_all
  merge_all-none [] h = refl
  merge_all-none (x ∷ xs) h = let (w, e) = merge_all-some (merge none x) xs in absurd (ground arith)

module _ {A : Type 0} (better : A → A → Bool) where
  -- `if !found || better(x, prev) { prev = x }`
  abbrev pub challenge : Option A → A → A
  challenge none x = x
  challenge (some c) x = if better x c then x else c

  abbrev pub best : Option A → List A → Option A
  best = merge_all challenge

  -- `b` is an element that no element beats.
  pub record IsBest (b : A) (xs : List A) : Type 0 where
    pub member : In b xs
    pub unbeaten : (x : A) → In x xs → better x b ≡ false

  module _ (strict : IsStrict better) where
    open strict use {irrefl, trans}

    -- Whatever loses to the current element loses to its successor.
    challenge_keeps : (c x y : A) → better y c ≡ false → better y (challenge (some c) x) ≡ false
    challenge_keeps c x y h = elim (Bool-cases (better y x)) [
      | inl p ↦ ground (arith, trans y x c)
      | inr p ↦ ground arith
    ]

    challenge_beats : (c x : A) → better x (challenge (some c) x) ≡ false
    challenge_beats c x = ground (arith, irrefl x)

    best_from :
        (c : A) (xs : List A) (b : A)
        → best (some c) xs ≡ some b
        → ((b ≡ c) ⊎ In b xs)
          × ((y : A) → (better y c ≡ false) → better y b ≡ false)
          × ((y : A) → In y xs → better y b ≡ false)
    unfolding merge_all
    best_from c [] b h = (ground arith, λ y q. ground arith, λ y m. absurd m)
    best_from c (x ∷ xs) b h =
        let c' = challenge (some c) x in
        let (origin, keeps, beats) = best_from c' xs b h in
        (
          ground arith,
          λ y q. keeps y (challenge_keeps c x y q),
          λ y m. elim m [
            | inl e ↦ keeps y (rw e (challenge_beats c x))
            | inr later ↦ beats y later
          ],
        )

    -- A non-empty list has a best element, and the loop finds one.
    pub best-IsBest : (xs : List A) (b : A) → best none xs ≡ some b → IsBest b xs
    unfolding merge_all
    best-IsBest [] b h = absurd (ground arith)
    best-IsBest (x ∷ xs) b h =
        let (origin, keeps, beats) = best_from x xs b h in
        record {
          member = origin;
          unbeaten =
              λ y m. elim m [ inl e ↦ keeps y (rw e (irrefl x)) | inr later ↦ beats y later ];
        }

-- `for x in xs { prev, found := m[key(x)]; …; m[key(x)] = prev }`
module _ {K A V : Type 0} ⦃e : Comparable K⦄ (key : A → K) (merge : Option V → A → V) where
  unfoldable pub merge_by : Dict K V → List A → Dict K V
  merge_by m [] = m
  merge_by m (x ∷ xs) = merge_by (insert (key x) (merge (lookup (key x) m) x) m) xs

  -- What a map holds at a key depends on the elements of that key alone.
  pub lookup-merge_by :
      (k : K) (m : Dict K V) (xs : List A)
      → lookup k (merge_by m xs) ≡ merge_all merge (lookup k m) (keep (λ x. key x == k) xs)
  unfolding merge_by merge_all
  lookup-merge_by k m [] = refl
  lookup-merge_by k m (x ∷ xs) =
      let m' = insert (key x) (merge (lookup (key x) m) x) m in
      ground (
        arith,
        lookup-merge_by k m' xs,
        lookup-insert (key x) k (merge (lookup (key x) m) x) m,
        e.test_iff (key x) k,
      )

  pub merge_by-IsDict : (m : Dict K V) (xs : List A) → IsDict m → IsDict (merge_by m xs)
  unfolding merge_by
  merge_by-IsDict m [] d = d
  merge_by-IsDict m (x ∷ xs) d =
      let v = merge (lookup (key x) m) x in
      merge_by-IsDict (insert (key x) v m) xs (insert-IsDict (key x) v m d)

module _ {A : Type 0} (better : A → A → Bool) where
  -- A map holds the best candidate of each key, and nothing exactly if a key has no candidate.
  abbrev pub Represents : (String → List A) → Dict String A → Type 0
  Represents candidates m =
      ((k : String) (a : A) → lookup k m ≡ some a → IsBest better a (candidates k))
      × ((k : String) → lookup k m ≡ none → candidates k ≡ [])

  pub Represents-of_best :
      IsStrict better
      → (candidates : String → List A) (m : Dict String A)
      → ((k : String) → lookup k m ≡ best better none (candidates k))
      → Represents candidates m
  Represents-of_best strict candidates m h = (
    λ k a found. best-IsBest better strict (candidates k) a (sym (h k) ∙ found),
    λ k missing. merge_all-none (challenge better) (candidates k) (sym (h k) ∙ missing),
  )
