-- ===== src/Render/Out.antt =====
-- internal/render/render.go, `Render`: the public files are written, and stale ones deleted.
pub mod Exact
pub mod Safe
pub mod Again
pub mod Keeps
use notmanytuples.Prelude.{
  ℕ, suc, String, Bool, true, false, not, Option, none, some, List, [], ◌∷◌, ◌++◌, map,
  if◌then◌else◌, ◌==◌, string_eq, eqb, ltb,
}
use notmanytuples.Prelude.Lists.{keep, any_of}
use notmanytuples.Prelude.Sort.{sort_slice}
use notmanytuples.Prelude.Text.{◌<>◌}
use notmanytuples.Prelude.Paths.{contains, byte_length}
use notmanytuples.Result.{Result, ok, err, and_then, Result-cases}
use notmanytuples.Scorer.Errors.{Error, failed, wrap}
use notmanytuples.Render.{
  Manifest, Node, Entries, file, dir, end, entry, Source, Globs, load_manifest, plan, walk_entries,
}

-- The output directory: its state, and the calls of the package os. `mkdir_parents` makes the
-- directory of a file with those above it, and a file that cannot be read is `none`.
pub record Disk (S : Type 0) : Type 0 where
  pub read_file : S → String → Option String
  pub mkdir_parents : S → String → S × Result Error (Unit {0})
  pub write_file : S → String → String → ℕ → S × Result Error (Unit {0})
  pub remove : S → String → S × Result Error (Unit {0})
  pub tree : S → Result Error Entries
  -- The number of entries of a directory.
  pub read_dir : S → String → Result Error ℕ

pub record Summary : Type 0 where
  pub tasks : List String
  pub added : List String
  pub updated : List String
  pub deleted : List String
  pub unchanged : ℕ

-- The directories below a directory; those named `.git` are skipped.
unfoldable mutual
  pub walk_dirs : String → Entries → List String
  walk_dirs prefix end = []
  walk_dirs prefix (entry name node rest) =
      walk_dirs_node (prefix <> name) name node ++ walk_dirs prefix rest

  walk_dirs_node : String → String → Node → List String
  walk_dirs_node rel name (file is_regular) = []
  walk_dirs_node rel name (dir entries) =
      let below = walk_dirs (rel <> "/") entries in if name == ".git" then [] else rel ∷ below

-- `wanted` is the set of the files; a file is looked up by going through them.
unfoldable pub stale_of : List String → Entries → List String
unfolding walk_entries
stale_of files root =
    keep (λ rel. not (any_of (λ f. f == rel) files)) (map (λ (rel, _). rel) (walk_entries "" root))

unfoldable pub deepest_first : Entries → List String
unfolding walk_dirs sort_slice byte_length
deepest_first root = sort_slice (λ a b. ltb (byte_length b) (byte_length a)) (walk_dirs "" root)

module _ {F : Type 0} (source : Source F) where
  -- The first forbidden text of a file, as an error.
  check_needles : String → String → List String → Result Error (Unit {0})
  check_needles rel body [] = ok tt
  check_needles rel body (needle ∷ forbid) =
      if contains body needle
      then err (failed (rel <> " contains forbidden " <> needle))
      else check_needles rel body forbid

  check_files : List String → List String → Result Error (Unit {0})
  unfolding check_needles contains
  check_files forbid [] = ok tt
  check_files forbid (rel ∷ files) = elim (source.read_file rel) [
    | err e ↦ err e
    | ok body ↦ elim (check_needles rel body forbid) [
      | err e ↦ err e
      | ok _ ↦ check_files forbid files
    ]
  ]

  unfoldable pub check_leaks : List String → List String → Result Error (Unit {0})
  unfolding check_files
  check_leaks files [] = ok tt
  check_leaks files (needle ∷ forbid) = check_files (needle ∷ forbid) files

module _ {F S : Type 0} (globs : Globs) (source : Source F) (disk : Disk S) where
  write_new : S → String → String → ℕ → Summary → S × Result Error Summary
  write_new s rel body mode summary =
      and_then (disk.mkdir_parents s rel)
        (λ s₁ _. and_then (disk.write_file s₁ rel body mode) (λ s₂ _. (s₂, ok summary)))

  -- The switch on what the output directory holds.
  copy_body : S → String → String → ℕ → Summary → Option String → S × Result Error Summary
  unfolding write_new
  copy_body s rel body mode summary none =
      write_new s rel body mode (record summary { added = summary.added ++ rel ∷ [] })
  copy_body s rel body mode summary (some existing) =
      if existing == body
      then (s, ok (record summary { unchanged = suc summary.unchanged }))
      else write_new s rel body mode (record summary { updated = summary.updated ++ rel ∷ [] })

  unfoldable pub copy_file : S → Summary → String → S × Result Error Summary
  unfolding copy_body
  copy_file s summary rel = elim (source.read_file rel) [
    | err e ↦ (s, err e)
    | ok body ↦ elim (source.file_mode rel) [
      | err e ↦ (s, err e)
      | ok mode ↦ copy_body s rel body mode summary (disk.read_file s rel)
    ]
  ]

  unfoldable pub copy_files : List String → S → Summary → S × Result Error Summary
  unfolding copy_file
  copy_files [] s summary = (s, ok summary)
  copy_files (rel ∷ files) s summary =
      and_then (copy_file s summary rel) (λ t next. copy_files files t next)

  unfoldable pub stale_files : List String → S → Result Error (List String)
  unfolding stale_of wrap
  stale_files files s = elim (wrap "Failed to walk the output" (disk.tree s)) [
    | err e ↦ err e
    | ok root ↦ ok (stale_of files root)
  ]

  unfoldable pub remove_files : List String → S → Summary → S × Result Error Summary
  remove_files [] s summary = (s, ok summary)
  remove_files (rel ∷ stale) s summary =
      and_then (disk.remove s rel)
        (λ t _. remove_files stale t (record summary { deleted = summary.deleted ++ rel ∷ [] }))

  unfoldable pub remove_dirs : List String → S → S × Result Error (Unit {0})
  remove_dirs [] s = (s, ok tt)
  remove_dirs (name ∷ dirs) s = elim (disk.read_dir s name) [
    | err e ↦ (s, err e)
    | ok entries ↦
        if eqb entries 0
        then and_then (disk.remove s name) (λ t _. remove_dirs dirs t)
        else remove_dirs dirs s
  ]

  unfoldable pub remove_empty_dirs : S → S × Result Error (Unit {0})
  unfolding remove_dirs deepest_first
  remove_empty_dirs s = elim (disk.tree s) [
    | err e ↦ (s, err e)
    | ok root ↦ remove_dirs (deepest_first root) s
  ]

  -- What follows the loop over the files.
  unfoldable pub clean_output : List String → S → Summary → S × Result Error Summary
  unfolding stale_files remove_files remove_empty_dirs
  clean_output files s summary = elim (stale_files files s) [
    | err e ↦ (s, err e)
    | ok stale ↦
        and_then (remove_files stale s summary)
          (λ t done. and_then (remove_empty_dirs t) (λ u _. (u, ok done)))
  ]

  unfoldable pub write_output : List String → List String → S → S × Result Error Summary
  unfolding copy_files clean_output
  write_output tasks files s =
      and_then
        (copy_files files s
          (record { tasks = tasks; added = []; updated = []; deleted = []; unchanged = 0 }))
        (λ t summary. clean_output files t summary)

  -- The part of `Render` that writes nothing: the tasks and the files of a source without leaks.
  unfoldable pub read_source : Result Error (List String × List String)
  unfolding load_manifest plan check_leaks wrap
  read_source = elim (load_manifest source) [
    | err e ↦ err e
    | ok m ↦ elim (plan globs source m) [
      | err e ↦ err e
      | ok planned ↦ elim (wrap "Refusing to export" (check_leaks source planned.1 m.forbid)) [
        | err e ↦ err e
        | ok _ ↦ ok planned
      ]
    ]
  ]

  unfoldable pub render : S → S × Result Error Summary
  unfolding read_source write_output
  render s = elim read_source [
    | err e ↦ (s, err e)
    | ok planned ↦ write_output planned.0 planned.1 s
  ]
