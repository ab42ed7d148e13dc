-- ===== src/Prelude/Dict.antt =====
-- Go's maps with the operations that the program uses: `m[k]`, `m[k] = v` and a walk over the
-- entries. An insertion at a key that is there keeps its place.
use mathlib.Core.Path.{◌≡◌, refl}
use mathlib.Core.Logic.{inl, inr}
use mathlib.Core.Option.{Option, none, some}
use mathlib.Core.List.{List, [], ◌∷◌}
use native.Mathlib.Omega.{arith}
use notmanytuples.Prelude.Tests.{if◌then◌else◌, Bool-cases, Comparable, ◌==◌, ==_refl}
use notmanytuples.Prelude.Lists.{In, All}

abbrev pub Dict {ℓ κ} : Type ℓ → Type κ → Type (ℓ ⊔ κ)
Dict K V = List (K × V)

module _ {ℓ κ} {K : Type ℓ} {V : Type κ} ⦃e : Comparable K⦄ where
  unfoldable pub lookup : K → Dict K V → Option V
  lookup key [] = none
  lookup key ((entry, held) ∷ others) = if entry == key then some held else lookup key others

  unfoldable pub insert : K → V → Dict K V → Dict K V
  insert key new [] = (key, new) ∷ []
  insert key new ((entry, held) ∷ others) =
      let rest = insert key new others in
      if entry == key then (key, new) ∷ others else (entry, held) ∷ rest

  -- What a map holds at `asked` after `m[key] = new`.
  pub lookup-insert :
      (key asked : K) (new : V) (entries : Dict K V)
      → lookup asked (insert key new entries)
        ≡ (if key == asked then some new else lookup asked entries)
  unfolding lookup insert
  lookup-insert key asked new [] = refl
  lookup-insert key asked new ((entry, held) ∷ others) =
      let rest = lookup-insert key asked new others in
      ground (arith, rest, e.test_iff entry key, e.test_iff entry asked, e.test_iff key asked)

-- A map of a map that may be missing.
abbrev pub or_empty {ℓ κ} : {K : Type ℓ} {V : Type κ} → Option (Dict K V) → Dict K V
or_empty none = []
or_empty (some m) = m

abbrev pub values {ℓ κ} : {K : Type ℓ} {V : Type κ} → Dict K V → List V
values [] = []
values ((k, v) ∷ m) = v ∷ values m

module _ {K V : Type 0} ⦃e : Comparable K⦄ where
  -- No key stands twice.
  abbrev pub IsDict : Dict K V → Type 0
  IsDict [] = Unit
  IsDict ((k, v) ∷ m) = (lookup k m ≡ none) × IsDict m

  pub insert-IsDict : (k : K) (v : V) (m : Dict K V) → IsDict m → IsDict (insert k v m)
  unfolding insert lookup
  insert-IsDict k v [] d = (refl, tt)
  insert-IsDict k v ((j, w) ∷ m) d = elim (Bool-cases (j == k)) [
    | inl same ↦ rw same (ground (arith, e.test_iff j k), d.1)
    | inr other ↦ rw other (
      ground (arith, lookup-insert k j v m, e.test_iff j k, e.test_iff k j),
      insert-IsDict k v m d.1,
    )
  ]

  -- A value that a lookup finds is among the values.
  pub lookup-In : (k : K) (v : V) (m : Dict K V) → lookup k m ≡ some v → In v (values m)
  unfolding lookup
  lookup-In k v [] h = absurd (ground arith)
  lookup-In k v ((j, w) ∷ m) h = elim (Bool-cases (j == k)) [
    | inl same ↦ inl (ground arith)
    | inr other ↦ inr (lookup-In k v m (ground arith))
  ]

  -- A value of a map without double keys is found at its key.
  pub In-values :
      (v : V) (m : Dict K V) → IsDict m → In v (values m) → (k : K) × (lookup k m ≡ some v)
  unfolding lookup
  In-values v [] d h = absurd h
  In-values v ((j, w) ∷ m) d (inl same) = (j, rw (==_refl j, same))
  In-values v ((j, w) ∷ m) d (inr later) =
      let (k, found) = In-values v m d.1 later in
      elim (Bool-cases (j == k)) [
        | inl same ↦ absurd (ground (arith, e.test_iff j k))
        | inr other ↦ (k, rw other found)
      ]

  pub IsDict-All :
      (P : K × V → Type 0) (m : Dict K V)
      → IsDict m
      → ((k : K) (v : V) → lookup k m ≡ some v → P (k, v))
      → All P m
  unfolding lookup
  IsDict-All P [] d h = tt
  IsDict-All P ((j, w) ∷ m) d h = (
    h j w (rw (==_refl j)),
    IsDict-All P m d.1 (λ k v found. h k v (elim (Bool-cases (j == k)) [
      | inl same ↦ absurd (ground (arith, e.test_iff j k, d.0))
      | inr other ↦ rw other found
    ])),
  )
