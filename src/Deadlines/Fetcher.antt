-- ===== src/Deadlines/Fetcher.antt =====
-- internal/deadlines/fetcher.go: the snapshot of the deadlines of all groups.
pub mod Snapshot
use notmanytuples.Prelude.{
  ℕ, String, Bool, true, false, Option, none, some, List, [], ◌∷◌, if◌then◌else◌, ◌==◌, string_eq,
}
use notmanytuples.Prelude.Dict.{Dict, lookup, insert, values}
use notmanytuples.Prelude.Lists.{any_of}
use notmanytuples.Prelude.Text.{◌<>◌}
use notmanytuples.Config.{GroupConfig}
use notmanytuples.Deadlines.{Deadlines, has_task}
use notmanytuples.Result.{Result, ok, err, ◌>>=◌}

-- `current`: the map that was stored last, or nothing yet.
pub record Fetcher (F : Type 0) : Type 0 where
  pub current : Option (Dict String (Deadlines F))

-- Fetching a document by its address and its format, with the text of its error.
module _ {F : Type 0} (fetch : String → String → Result String (Deadlines F)) where
  fetch_groups :
      Dict String (Deadlines F) → List GroupConfig → Result String (Dict String (Deadlines F))
  fetch_groups deadlines [] = ok deadlines
  fetch_groups deadlines (g ∷ groups) = elim (fetch g.deadlines_url g.deadlines_format) [
    | err e ↦ err e
    | ok d ↦ fetch_groups (insert g.name d deadlines) groups
  ]

  -- The fetcher after a round, and whether the round failed.
  unfoldable pub reload : List GroupConfig → Fetcher F → Fetcher F × Option String
  unfolding fetch_groups
  reload groups f = elim (fetch_groups [] groups) [
    | err e ↦ (f, some ("Failed to reload deadlines: " <> e))
    | ok deadlines ↦ (record { current = some deadlines }, none)
  ]

  -- A fetcher whose first round fails is not made. The check that a round without an error has
  -- stored something is a panic in the code, here the error.
  unfoldable pub new_fetcher : List GroupConfig → Result String (Fetcher F)
  unfolding reload
  new_fetcher groups =
      let (f, failure) = reload groups (record { current = none }) in
      elim failure [
        | some e ↦ err e
        | none ↦ elim f.current [ none ↦ err "No deadlines found after reload" | some _ ↦ ok f ]
      ]

module _ {F : Type 0} where
  unfoldable pub group_deadlines : Fetcher F → String → Option (Deadlines F)
  group_deadlines f group = elim f.current [ none ↦ none | some deadlines ↦ lookup group deadlines ]

  unfoldable pub any_group_has_task : Fetcher F → String → Bool
  unfolding has_task
  any_group_has_task f task = elim f.current [
    | none ↦ false
    | some deadlines ↦ any_of (λ d. has_task d task) (values deadlines)
  ]
