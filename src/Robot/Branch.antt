-- ===== src/Robot/Branch.antt =====
-- internal/gitlab/branch.go: the task that a branch submits.
use notmanytuples.Prelude.{String, ◌≡◌, refl, Bool, true, false, inl, inr, arith, Option-cases}
use notmanytuples.Prelude.Text.{◌<>◌, strip_prefix, has_prefix, trim_prefix, strip_prefix-append}

abbrev pub branch_prefix : String
branch_prefix = "submits/"

abbrev pub tasks_prefix : String
tasks_prefix = "tasks/"

unfoldable pub parse_task_from_branch : String → String
parse_task_from_branch branch = trim_prefix (trim_prefix branch branch_prefix) tasks_prefix

unfoldable pub is_submit_branch : String → Bool
is_submit_branch name = has_prefix name branch_prefix

trim_prefix-append : (p s : String) → trim_prefix (p <> s) p ≡ s
unfolding trim_prefix
trim_prefix-append p s = rw (strip_prefix-append p s, trim_prefix) refl

trim_prefix_none : (p s : String) → has_prefix s p ≡ false → trim_prefix s p ≡ s
unfolding trim_prefix has_prefix
trim_prefix_none p s h = elim (Option-cases (strip_prefix p s)) [
  | inl e ↦ rw (e, trim_prefix) refl
  | inr (t, e) ↦ absurd (ground arith)
]

has_prefix-append : (p s : String) → has_prefix (p <> s) p ≡ true
unfolding has_prefix
has_prefix-append p s = rw (strip_prefix-append p s, has_prefix) refl

-- The branch `submits/<task>` submits its task, and so does `submits/tasks/<task>`, where the task
-- does not itself start with `tasks/`; both are branches that the robot reads.
pub parse_task_from_branch_roundtrip :
    (task : String)
    → has_prefix task tasks_prefix ≡ false
    → (is_submit_branch (branch_prefix <> task) ≡ true)
      × (parse_task_from_branch (branch_prefix <> task) ≡ task)
      × (is_submit_branch (branch_prefix <> (tasks_prefix <> task)) ≡ true)
      × (parse_task_from_branch (branch_prefix <> (tasks_prefix <> task)) ≡ task)
unfolding parse_task_from_branch is_submit_branch
parse_task_from_branch_roundtrip task h = (
  has_prefix-append branch_prefix task,
  rw (trim_prefix-append branch_prefix task) (trim_prefix_none tasks_prefix task h),
  has_prefix-append branch_prefix (tasks_prefix <> task),
  rw (trim_prefix-append branch_prefix (tasks_prefix <> task))
      (trim_prefix-append tasks_prefix task),
)
