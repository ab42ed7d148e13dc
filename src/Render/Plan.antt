-- ===== src/Render/Plan.antt =====
-- What `Plan` lists.
use notmanytuples.Prelude.{
  String, ◌≡◌, sym, ap, inl, inr, true, false, List, string_eq, Bool-cases, arith,
}
use mathlib.Core.Path.{subst}
use notmanytuples.Prelude.Lists.{In, keep, any_of-In, In-keep, In-map}
use notmanytuples.Prelude.Text.{is_before}
use notmanytuples.Prelude.Sort.{In-sort_slice}
use notmanytuples.Prelude.Paths.{split_slash}
use notmanytuples.Result.{ok, err, ◌>>=◌, >>=-eq-ok}
use notmanytuples.Scorer.Errors.{wrap}
use notmanytuples.Render.{
  Source, Globs, Manifest, Rules, Entries, walk_entries, exported, plan, plan_tasks, list_files,
  planned_files, is_planned, public_tasks, check_task_dirs, rules_of, is_private_dir,
}

module _ {F : Type 0} (globs : Globs) (source : Source F) where
  -- A segment of an exported path is neither `private` nor `solution`.
  pub exported-In :
      (r : Rules) (q segment : String)
      → exported globs r q ≡ true
      → In segment (split_slash q)
      → is_private_dir segment ≡ false
  unfolding exported
  exported-In r q segment h there = elim (Bool-cases (is_private_dir segment)) [
    | inr open_dir ↦ open_dir
    | inl private_dir ↦
        absurd (ground (arith, any_of-In is_private_dir segment (split_slash q) there private_dir))
  ]

  planned_files-In :
      (r : Rules) (root : Entries) (q : String)
      → In q (planned_files globs source r root)
      → exported globs r q ≡ true
  unfolding planned_files
  planned_files-In r root q there =
      let (entry, kept, same) =
        In-map (λ (rel, _). rel) q (keep (is_planned globs source r) (walk_entries "" root))
          (In-sort_slice is_before q _ there) in
      let (_, passed) = In-keep (is_planned globs source r) entry (walk_entries "" root) kept in
      subst (λ x. exported globs r x ≡ true) (sym same) (ground arith)

  -- A planned file is exported by the rules of the manifest.
  pub plan-In :
      (m : Manifest) (tasks files : List String) (q : String)
      → plan globs source m ≡ ok (tasks, files)
      → In q files
      → (r : Rules) × (exported globs r q ≡ true)
  unfolding plan plan_tasks list_files
  plan-In m tasks files q h there =
      let (listed, _, h₁) =
        >>=-eq-ok (public_tasks source m) (λ ts. plan_tasks globs source m ts) h in
      let (_, _, h₂) =
        >>=-eq-ok (check_task_dirs globs source m.tasks listed)
          (λ _. rules_of globs source m listed >>= λ r. list_files globs source listed r) h₁ in
      let (r, _, h₃) =
        >>=-eq-ok (rules_of globs source m listed) (λ r. list_files globs source listed r) h₂ in
      let (root, _, h₄) =
        >>=-eq-ok (wrap "Failed to walk the source" source.tree)
          (λ root. ok (listed, planned_files globs source r root)) h₃ in
      let same : planned_files globs source r root ≡ files =
        ap (λ x. elim x [ ok y ↦ y.1 | err _ ↦ files ]) h₄ in
      (r, planned_files-In r root q (subst (In q) (sym same) there))
