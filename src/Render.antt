-- ===== src/Render.antt =====
-- internal/render/render.go and glob.go: which files of the private course are public.
pub mod Out
pub mod Publish
pub mod Plan
use notmanytuples.Prelude.{
  ℕ, String, Bool, true, false, not, ◌&&◌, ◌||◌, Option, none, some, List, [], ◌∷◌, ◌++◌, map,
  if◌then◌else◌, ◌==◌, string_eq,
}
use notmanytuples.Prelude.Lists.{keep, any_of}
use notmanytuples.Prelude.Dict.{Dict, insert}
use notmanytuples.Prelude.Sort.{sort_slice}
use notmanytuples.Prelude.Text.{◌<>◌, is_before, has_prefix}
use notmanytuples.Prelude.Paths.{split_slash, path_join, trim_slashes}
use notmanytuples.Deadlines.{Deadlines, Task, TaskGroup}
use notmanytuples.Result.{Result, ok, err, ◌>>=◌}
use notmanytuples.Scorer.Errors.{Error, failed, wrap}

abbrev pub manifest_name : String
manifest_name = "course.yaml"

pub record Manifest : Type 0 where
  pub tasks : String
  pub deadlines : List String
  pub deadlines_format : String
  pub include : List String
  pub exclude : List String
  pub forbid : List String

-- A directory as a walk sees it, in the order of the walk. A file that is not regular, such as a
-- symbolic link, is marked.
mutual
  pub data Node : Type 0 where
    file : (is_regular : Bool) → Node
    dir : Entries → Node

  pub data Entries : Type 0 where
    end : Entries
    entry : (name : String) → Node → Entries → Entries

-- The private course: its files, whether a task has a directory, its tree, and the parsers of YAML.
pub record Source (F : Type 0) : Type 0 where
  pub read_file : String → Result Error String
  pub file_mode : String → Result Error ℕ
  pub has_task_dir : String → String → Bool
  pub tree : Result Error Entries
  pub parse_manifest : String → Result Error Manifest
  pub parse_deadlines : String → String → Result Error (Deadlines F)

-- The package doublestar.
pub record Globs : Type 0 where
  pub validate_pattern : String → Bool
  pub match : String → String → Result Error Bool

abbrev pub or_default : String → String → String
or_default given default = if given == "" then default else given

module _ {F : Type 0} (source : Source F) where
  check_manifest : Manifest → Result Error Manifest
  check_manifest m = elim m.deadlines [
    | [] ↦ err (failed (manifest_name <> ": deadlines must list at least one file"))
    | _ ∷ _ ↦ ok (record m {
      tasks = or_default m.tasks "tasks";
      deadlines_format = or_default m.deadlines_format "v2";
    })
  ]

  unfoldable pub load_manifest : Result Error Manifest
  unfolding check_manifest wrap
  load_manifest = wrap "Failed to read course.yaml" (source.read_file manifest_name) >>= λ body.
      wrap "Failed to parse course.yaml" (source.parse_manifest body) >>= check_manifest

module _ {F : Type 0} where
  -- The keys of a Go map from tasks to `true`.
  add_tasks : List (Task F) → Dict String Bool → Dict String Bool
  add_tasks [] set = set
  add_tasks (t ∷ ts) set = add_tasks ts (insert t.task true set)

  add_groups : List (TaskGroup F) → Dict String Bool → Dict String Bool
  unfolding add_tasks
  add_groups [] set = set
  add_groups (g ∷ gs) set = add_groups gs (add_tasks g.tasks set)

  add_deadlines :
      Source F → String → List String → Dict String Bool → Result Error (Dict String Bool)
  unfolding add_groups wrap
  add_deadlines source format [] set = ok set
  add_deadlines source format (name ∷ names) set =
      wrap ("Failed to read deadlines " <> name) (source.read_file name) >>= λ body.
      wrap ("Failed to parse deadlines " <> name) (source.parse_deadlines body format) >>= λ parsed.
      add_deadlines source format names (add_groups parsed.assignments set)

  unfoldable pub public_tasks : Source F → Manifest → Result Error (List String)
  unfolding add_deadlines sort_slice
  public_tasks source m = add_deadlines source m.deadlines_format m.deadlines [] >>= λ set.
      ok (sort_slice is_before (map (λ (task, _). task) set))

abbrev is_private_dir : String → Bool
is_private_dir segment = segment == "private" || segment == "solution"

pub record Rules : Type 0 where
  pub tasks_dir : String
  pub tasks : List String
  pub include : List String
  pub exclude : List String

module _ (globs : Globs) where
  unfoldable pub compile_globs : List String → Result Error (List String)
  compile_globs [] = ok []
  compile_globs (pattern ∷ patterns) =
      if not (globs.validate_pattern pattern)
      then err (failed ("bad pattern " <> pattern))
      else compile_globs patterns >>= λ compiled. ok (pattern ∷ compiled)

  -- The error of a match is dropped, with the `false` beside it.
  unfoldable pub any_match : List String → String → Bool
  any_match patterns path =
      any_of (λ g. elim (globs.match g path) [ ok b ↦ b | err _ ↦ false ]) patterns

  unfoldable pub exported : Rules → String → Bool
  unfolding any_match split_slash path_join has_prefix
  exported r rel =
      if any_of is_private_dir (split_slash rel)
      then false
      else if any_match r.exclude rel
      then false
      else if any_of (λ task. has_prefix rel (path_join r.tasks_dir task <> "/")) r.tasks
      then true
      else any_match r.include rel

-- The files that a walk comes to, with their paths; directories named `.git` are skipped.
unfoldable mutual
  pub walk_entries : String → Entries → List (String × Bool)
  walk_entries prefix end = []
  walk_entries prefix (entry name node rest) =
      walk_node (prefix <> name) name node ++ walk_entries prefix rest

  walk_node : String → String → Node → List (String × Bool)
  walk_node rel name (file is_regular) = (rel, is_regular) ∷ []
  walk_node rel name (dir entries) =
      let below = walk_entries (rel <> "/") entries in if name == ".git" then [] else below

module _ {F : Type 0} (globs : Globs) (source : Source F) where
  check_task_dirs : String → List String → Result Error (Unit {0})
  check_task_dirs tasks_dir [] = ok tt
  check_task_dirs tasks_dir (task ∷ tasks) =
      if source.has_task_dir tasks_dir task
      then check_task_dirs tasks_dir tasks
      else err (failed ("task " <> task <> " is in the deadlines but not in " <> tasks_dir <> "/"))

  rules_of : Manifest → List String → Result Error Rules
  unfolding compile_globs wrap trim_slashes
  rules_of m tasks =
      wrap "Bad export.include pattern" (compile_globs globs m.include) >>= λ include.
      wrap "Bad export.exclude pattern" (compile_globs globs m.exclude) >>= λ exclude. ok (record {
        tasks_dir = trim_slashes m.tasks;
        tasks = tasks;
        include = include;
        exclude = exclude;
      })

  abbrev pub is_planned : Rules → String × Bool → Bool
  is_planned r (rel, is_regular) =
      not (rel == manifest_name || not is_regular) && exported globs r rel

  -- The paths that the walk over the source appends, sorted.
  unfoldable pub planned_files : Rules → Entries → List String
  unfolding walk_entries exported sort_slice
  planned_files r root =
      sort_slice is_before (map (λ (rel, _). rel) (keep (is_planned r) (walk_entries "" root)))

  list_files : List String → Rules → Result Error (List String × List String)
  unfolding planned_files wrap
  list_files tasks r =
      wrap "Failed to walk the source" source.tree >>= λ root. ok (tasks, planned_files r root)

  plan_tasks : Manifest → List String → Result Error (List String × List String)
  unfolding check_task_dirs rules_of list_files
  plan_tasks m tasks =
      check_task_dirs m.tasks tasks >>= λ _. rules_of m tasks >>= λ r. list_files tasks r

  -- The tasks, and the paths of the public files.
  unfoldable pub plan : Manifest → Result Error (List String × List String)
  unfolding public_tasks plan_tasks
  plan m = public_tasks source m >>= λ tasks. plan_tasks m tasks
