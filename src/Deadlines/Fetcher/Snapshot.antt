-- ===== src/Deadlines/Fetcher/Snapshot.antt =====
-- A round of the fetcher replaces the snapshot whole, or leaves it.
use notmanytuples.Prelude.{
  String, ◌≡◌, refl, sym, ap, ◌⊎◌, inl, inr, none, some, List, [], ◌∷◌, arith, ◌==◌, string_eq,
  Bool-cases, eq_iff,
}
use mathlib.Core.Path.{subst}
use notmanytuples.Prelude.Dict.{Dict, lookup, insert, lookup-insert}
use notmanytuples.Prelude.Lists.{In}
use notmanytuples.Prelude.Text.{◌<>◌}
use notmanytuples.Config.{GroupConfig}
use notmanytuples.Deadlines.{Deadlines}
use notmanytuples.Deadlines.Fetcher.{Fetcher, fetch_groups, reload, group_deadlines}
use notmanytuples.Result.{Result, ok, Result-cases}

module _ {F : Type 0} (fetch : String → String → Result String (Deadlines F)) where
  abbrev Has : Dict String (Deadlines F) → String → Type 0
  Has m name = (d : Deadlines F) × (lookup name m ≡ some d)

  insert-Has :
      (m : Dict String (Deadlines F)) (key name : String) (d : Deadlines F)
      → Has m name ⊎ (key ≡ name)
      → Has (insert key d m) name
  insert-Has m key name d h = elim (Bool-cases (key == name)) [
    | inl e ↦ (d, rw (lookup-insert key name d m, e) refl)
    | inr e ↦ elim h [
      | inl (old, there) ↦ (old, rw (lookup-insert key name d m, e) there)
      | inr same ↦ absurd (ground (arith, eq_iff key name))
    ]
  ]

  fetch_groups-Has :
      (gs : List GroupConfig) (m r : Dict String (Deadlines F))
      → fetch_groups fetch m gs ≡ ok r
      → ((name : String) → Has m name → Has r name) × ((g : GroupConfig) → In g gs → Has r g.name)
  unfolding fetch_groups
  fetch_groups-Has [] m r h =
      let same : m ≡ r = ground arith in
      (
        λ name there. subst (λ (x : Dict String (Deadlines F)). Has x name) same there,
        λ g i. absurd i,
      )
  fetch_groups-Has (x ∷ xs) m r h = elim (Result-cases (fetch x.deadlines_url x.deadlines_format)) [
    | inr (e, failed) ↦ absurd (ground arith)
    | inl (d, fetched) ↦
        let (keeps, later) = fetch_groups-Has xs (insert x.name d m) r (ground arith) in
        (
          λ name there. keeps name (insert-Has m x.name name d (inl there)),
          λ g i. elim i [
            | inl e ↦
                keeps g.name
                  (insert-Has m x.name g.name d (inr (ap (λ (y : GroupConfig). y.name) (sym e))))
            | inr i' ↦ later g i'
          ],
        )
  ]

  -- A round of `reload` that fails leaves the snapshot as it was; after a round without an error
  -- every configured group has deadlines.
  pub reload_whole :
      (groups : List GroupConfig) (f : Fetcher F)
      → ((e : String) × (reload fetch groups f ≡ (f, some e)))
        ⊎ ((f' : Fetcher F) × (reload fetch groups f ≡ (f', none))
            × ((g : GroupConfig)
                → In g groups
                → (d : Deadlines F) × (group_deadlines f' g.name ≡ some d)))
  unfolding reload group_deadlines
  reload_whole groups f = elim (Result-cases (fetch_groups fetch [] groups)) [
    | inr (e, failed) ↦ inl ("Failed to reload deadlines: " <> e, rw (failed, reload) refl)
    | inl (m, fetched) ↦ inr (
      record { current = some m },
      rw (fetched, reload) refl,
      (fetch_groups-Has groups [] m fetched).1,
    )
  ]
