-- ===== src/Prelude/Pages.antt =====
-- The items of a listing that comes in pages, at least one, and what they make of a state.
use Prim.Native.Nat.{ℕ, suc}
use mathlib.Core.Path.{◌≡◌, refl}
use mathlib.Core.Logic.{inl, inr}
use mathlib.Core.Bool.{Bool}
use mathlib.Core.List.{List, [], ◌∷◌, ◌++◌}
use notmanytuples.Prelude.Tests.{Bool-cases}
use notmanytuples.Prelude.Lists.{All, keep}

module _ {A : Type 0} where
  abbrev pub page_count : List (List A) → ℕ
  page_count [] = 0
  page_count (page ∷ pages) = suc (page_count pages)

  -- The items of the first page and of those after it.
  abbrev pub joined : List A → List (List A) → List A
  joined first [] = first
  joined first (next ∷ pages) = first ++ joined next pages

  pub All-append : (P : A → Type 0) (xs ys : List A) → All P (xs ++ ys) → All P xs × All P ys
  All-append P [] ys h = (tt, h)
  All-append P (x ∷ xs) ys h = let (a, b) = All-append P xs ys h.1 in ((h.0, a), b)

  pub keep-append : (p : A → Bool) (xs ys : List A) → keep p (xs ++ ys) ≡ keep p xs ++ keep p ys
  keep-append p [] ys = refl
  keep-append p (x ∷ xs) ys = elim (Bool-cases (p x)) [
    | inl yes_kept ↦ rw (keep, yes_kept, keep-append p xs ys) refl
    | inr dropped ↦ rw (keep, dropped, keep-append p xs ys) refl
  ]

module _ {S A : Type 0} (f : S → A → S) where
  -- What the items, one after the other, make of a state.
  abbrev pub run_all : S → List A → S
  run_all s [] = s
  run_all s (x ∷ xs) = run_all (f s x) xs

  pub run_all-append : (s : S) (xs ys : List A) → run_all s (xs ++ ys) ≡ run_all (run_all s xs) ys
  run_all-append s [] ys = refl
  run_all-append s (x ∷ xs) ys = run_all-append (f s x) xs ys
