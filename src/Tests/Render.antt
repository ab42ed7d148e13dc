-- ===== src/Tests/Render.antt =====
-- The public tree of a small course, on an output directory that is an association list.
use notmanytuples.Prelude.{
  ℕ, suc, String, ◌≡◌, ◌≢◌, refl, sym, ap, ◌∙◌, inl, inr, true, false, none, some, List, [], ◌∷◌,
  map, if◌then◌else◌, ◌==◌, string_eq, Bool-cases, arith, eq_iff,
}
use mathlib.Core.Path.{subst}
use text.Mathlib.TextLemmas.{nil-append}
use notmanytuples.Prelude.Lists.{In}
use notmanytuples.Prelude.Dict.{Dict, lookup, insert, lookup-insert}
use notmanytuples.Prelude.Sort.{sort_slice}
use notmanytuples.Prelude.Text.{strip_prefix}
use notmanytuples.Prelude.Paths.{contains}
use notmanytuples.Result.{Result, ok, err}
use notmanytuples.Scorer.Errors.{Error, failed, wrap}
use notmanytuples.Render.{
  Manifest, Entries, file, dir, end, entry, Source, Globs, walk_entries, load_manifest, plan,
  planned_files, public_tasks,
}
use notmanytuples.Render.Out.{
  Disk, Summary, read_source, render, remove_empty_dirs, deepest_first, copy_file, copy_files,
  stale_of, stale_files, remove_files, clean_output, write_output, check_leaks,
}
use notmanytuples.Render.Out.Exact.{IsLawful, IsWalked, public_view, render_refines}
use notmanytuples.Render.Out.Safe.{IsHidden, render_safe}
use notmanytuples.Render.Out.Again.{render_again}
use notmanytuples.Render.Publish.{PublishOptions, Git, publish}
use notmanytuples.Render.Publish.Target.{KeepsTarget, is_push, publish_quiet}
use notmanytuples.Tests.Data.{course}

abbrev Files : Type 0
Files = Dict String String

abbrev erase : String → Files → Files
erase p [] = []
erase p ((q, body) ∷ files) = let rest = erase p files in if q == p then rest else (q, body) ∷ rest

abbrev entries_of : Files → Entries
entries_of [] = end
entries_of ((q, body) ∷ files) = entry q (file true) (entries_of files)

abbrev disk : Disk Files
disk = record {
  read_file = λ d p. lookup p d;
  mkdir_parents = λ d p. (d, ok tt);
  write_file = λ d p body mode. (insert p body d, ok tt);
  remove = λ d p. (erase p d, ok tt);
  tree = λ d. ok (entries_of d);
  read_dir = λ d p. err (failed "not a directory");
}

lookup-erase :
    (p q : String) (d : Files) → lookup q (erase p d) ≡ (if p == q then none else lookup q d)
unfolding lookup
lookup-erase p q [] = ground arith
lookup-erase p q ((r, body) ∷ d) =
    ground (arith, lookup-erase p q d, eq_iff r p, eq_iff r q, eq_iff p q)

ok_value : {A : Type 0} {a b : A} → ◌≡◌ {A = Result Error A} (ok a) (ok b) → a ≡ b
ok_value {a} h = ap (λ x. elim x [ ok y ↦ y | err _ ↦ a ]) h

ok_first : {A B : Type 0} {a b : A} {x y : B} → ◌≡◌ {A = A × B} (a, x) (b, y) → a ≡ b
ok_first h = ap (λ r. r.0) h

disk-IsLawful : IsLawful disk
disk-IsLawful = record {
  read-mkdir_parents = λ s p q. refl;
  read-write_file =
      λ s t p q body mode h. ap (lookup q) (sym (ok_first h)) ∙ lookup-insert p q body s;
  read-remove = λ s t p q h. ap (lookup q) (sym (ok_first h)) ∙ lookup-erase p q s;
  read-read_dir = λ s p entries h. absurd (ground arith);
}

walked_lookup :
    (q : String) (d : Files)
    → lookup q d ≢ none
    → In q (map (λ (rel, _). rel) (walk_entries "" (entries_of d)))
unfolding lookup walk_entries
walked_lookup q [] h = h refl
walked_lookup q ((r, body) ∷ d) h = elim (Bool-cases (r == q)) [
  | inl same ↦ inl (sym ((eq_iff r q).0 same) ∙ sym (nil-append r))
  | inr other ↦ inr (walked_lookup q d (λ n. h (rw other n)))
]

disk-IsWalked : (q : String) → IsWalked disk q
disk-IsWalked q s root h there =
    subst (λ x. In q (map (λ (rel, _). rel) (walk_entries "" x))) (ok_value h)
      (walked_lookup q s there)

listed-lookup :
    (q : String) (d : Files)
    → In q (map (λ (rel, _). rel) (walk_entries "" (entries_of d)))
    → lookup q d ≢ none
unfolding lookup walk_entries
listed-lookup q [] m n = m
listed-lookup q ((r, body) ∷ d) (inl e) n = absurd (ground (arith, eq_iff r q, e, nil-append r))
listed-lookup q ((r, body) ∷ d) (inr later) n = elim (Bool-cases (r == q)) [
  | inl same ↦ absurd (ground (arith, same))
  | inr other ↦ listed-lookup q d later (sym (rw other refl) ∙ n)
]

disk_listed :
    (s : Files) (root : Entries) (q : String)
    → disk.tree s ≡ ok root
    → In q (map (λ (rel, _). rel) (walk_entries "" root))
    → (disk.read_file s q ≢ none) × IsWalked disk q
disk_listed s root q h m = (
  listed-lookup q s
      (subst (λ x. In q (map (λ (rel, _). rel) (walk_entries "" x))) (sym (ok_value h)) m),
  disk-IsWalked q,
)

abbrev manifest : Manifest
manifest = record {
  tasks = "";
  deadlines = "deadlines.yml" ∷ [];
  deadlines_format = "";
  include = "README.md" ∷ [];
  exclude = "tasks/sum/notes" ∷ [];
  forbid = "PRIVATE" ∷ [];
}

-- Two tasks, one with private tests, and a readme.
abbrev course_source : Source ℕ
course_source = record {
  read_file = λ p. ok p;
  file_mode = λ p. ok 420;
  has_task_dir = λ tasks task. true;
  tree = ok (
      entry ".git" (dir (entry "config" (file true) end)) (
        entry "README.md" (file true) (
          entry "tasks"
            (dir (
              entry "sum"
                (dir (
                  entry "main.cpp" (file true)
                    (entry "private" (dir (entry "t.cpp" (file true) end)) end)))
                (entry "race" (dir (entry "link" (file false) end)) end)))
            end)));
  parse_manifest = λ body. ok manifest;
  parse_deadlines = λ body format. ok course;
}

abbrev globs : Globs
globs = record { validate_pattern = λ g. true; match = λ g path. ok (g == path) }

read_course :
    read_source globs course_source disk
    ≡ ok ("race" ∷ "sum" ∷ [], "README.md" ∷ "tasks/sum/main.cpp" ∷ [])
unfolding read_source strip_prefix load_manifest plan public_tasks check_leaks wrap sort_slice
    planned_files insert
read_course = refl

abbrev tasks : List String
tasks = "race" ∷ "sum" ∷ []

abbrev files : List String
files = "README.md" ∷ "tasks/sum/main.cpp" ∷ []

abbrev start : Files
start = ("README.md", "old") ∷ ("stale.txt", "x") ∷ []

abbrev rendered : Files
rendered = ("README.md", "README.md") ∷ ("tasks/sum/main.cpp", "tasks/sum/main.cpp") ∷ []

abbrev first_summary : Summary
first_summary = record {
  tasks = tasks;
  added = "tasks/sum/main.cpp" ∷ [];
  updated = "README.md" ∷ [];
  deleted = "stale.txt" ∷ [];
  unchanged = 0;
}

first_run : render globs course_source disk start ≡ (rendered, ok first_summary)
unfolding render write_output copy_files copy_file clean_output stale_files stale_of remove_files
    remove_empty_dirs deepest_first lookup insert wrap strip_prefix
first_run = refl

nothing_empty : remove_empty_dirs globs course_source disk rendered ≡ (rendered, ok tt)
unfolding remove_empty_dirs deepest_first
nothing_empty = refl

render_refines_example :
    disk.read_file rendered "stale.txt" ≡ public_view course_source files "stale.txt"
render_refines_example =
    render_refines globs course_source disk disk-IsLawful start rendered first_summary tasks files
      "stale.txt" read_course first_run (disk-IsWalked "stale.txt")

readme_held : disk.read_file rendered "README.md" ≡ some "README.md"
unfolding lookup
readme_held = refl

render_safe_example :
    ¬ IsHidden "README.md"
    × ((m : Manifest) (needle : String)
        → load_manifest course_source ≡ ok m
        → In needle m.forbid
        → contains "README.md" needle ≡ false)
render_safe_example =
    render_safe globs course_source disk disk-IsLawful start rendered first_summary "README.md"
      "README.md" first_run (disk-IsWalked "README.md") readme_held

render_again_example : render globs course_source disk rendered ≡ (
  rendered,
  ok (record { tasks = tasks; added = []; updated = []; deleted = []; unchanged = 2 }),
)
render_again_example =
    render_again globs course_source disk disk-IsLawful disk_listed start rendered rendered
      first_summary tasks files (entries_of rendered) read_course first_run refl nothing_empty

-- What the target has is the number of pushes, kept beside the files of the clone.
abbrev clone_disk : Disk (ℕ × Files)
clone_disk = record {
  read_file = λ (n, d) p. lookup p d;
  mkdir_parents = λ (n, d) p. ((n, d), ok tt);
  write_file = λ (n, d) p body mode. ((n, insert p body d), ok tt);
  remove = λ (n, d) p. ((n, erase p d), ok tt);
  tree = λ (n, d). ok (entries_of d);
  read_dir = λ (n, d) p. err (failed "not a directory");
}

abbrev git : Git (ℕ × Files)
git = record {
  run = λ (n, d) args. if is_push args then ((suc n, d), ok "") else ((n, d), ok "diff");
  source_revision = err (failed "not a repository");
  mkdir_temp = λ s. (s, ok tt);
  remove_all = λ (n, d). (n, []);
  now = "now";
  trim_space = λ t. t;
}

git-KeepsTarget : KeepsTarget clone_disk git (λ (n, d). n)
git-KeepsTarget = record {
  run = λ (n, d) args quiet. rw quiet refl;
  mkdir_temp = λ s. refl;
  remove_all = λ (n, d). refl;
  output = record {
    mkdir_parents = λ (n, d) p. refl;
    write_file = λ (n, d) p body mode. refl;
    remove = λ (n, d) p. refl;
  };
}

abbrev dry_options : PublishOptions
dry_options = record {
  target = "git@host:template";
  branch = "";
  message = "";
  dry_run = true;
  author_name = "";
  author_email = "";
}

publish_quiet_example : (publish globs course_source clone_disk git (3, start) dry_options).0.0 ≡ 3
publish_quiet_example =
    publish_quiet globs course_source clone_disk git (λ (n, d). n) git-KeepsTarget (3, start)
      dry_options (inl (inl refl))
