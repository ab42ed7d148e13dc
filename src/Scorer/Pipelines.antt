-- ===== src/Scorer/Pipelines.antt =====
-- internal/scorer/scorer.go: the pipeline and the flag that represent a task.
pub mod Choice
use notmanytuples.Prelude.{
  ℕ, ◌<◌, String, Bool, true, false, Option, none, some, List, [], ◌∷◌, if◌then◌else◌, ltb, eqb,
  ◌==◌, string_eq,
}
use notmanytuples.Prelude.Int.{ℤ, int_Eq}
use notmanytuples.Prelude.Dict.{Dict, lookup, insert}
use notmanytuples.Prelude.Time.{before, after}
use notmanytuples.Prelude.Best.{challenge}
use notmanytuples.Models.{
  User, Pipeline, Flag, SubmissionBan, get_project_name, pipeline_status_banned,
  pipeline_status_failed, pipeline_status_pending, pipeline_status_running, pipeline_status_success,
  pipeline_status_canceled,
}
use notmanytuples.Result.{Result, ok, err, ◌>>=◌}
use notmanytuples.Scorer.Errors.{Error, wrap, deref}

abbrev pub task_status_banned : ℕ
task_status_banned = 0

abbrev pub task_status_assigned : ℕ
task_status_assigned = 1

abbrev pub task_status_failed : ℕ
task_status_failed = 2

abbrev pub task_status_checking : ℕ
task_status_checking = 3

abbrev pub task_status_success : ℕ
task_status_success = 4

unfoldable pub classify_pipeline_status : String → ℕ
classify_pipeline_status status =
    if status == pipeline_status_banned
    then task_status_banned
    else if status == pipeline_status_failed
    then task_status_failed
    else if status == pipeline_status_canceled
    then task_status_failed
    else if status == pipeline_status_pending
    then task_status_checking
    else if status == pipeline_status_running
    then task_status_checking
    else if status == pipeline_status_success
    then task_status_success
    else task_status_assigned

unfoldable pub pipeline_less : Pipeline → Pipeline → Bool
pipeline_less left right =
    if eqb (classify_pipeline_status left.status) (classify_pipeline_status right.status)
    then (if left.status == pipeline_status_success
        then before left.started_at right.started_at
        else after left.started_at right.started_at)
    else ltb (classify_pipeline_status right.status) (classify_pipeline_status left.status)

abbrev pub SubmissionBans : Type 0
SubmissionBans = Dict ℤ SubmissionBan

index_bans : SubmissionBans → List SubmissionBan → SubmissionBans
index_bans m [] = m
index_bans m (ban ∷ bans) = index_bans (insert ban.pipeline_id ban m) bans

-- `loadSubmissionBans`, over the rows of `ListSubmissionBans`.
unfoldable pub load_submission_bans :
    Result Error (List SubmissionBan) → Result Error SubmissionBans
unfolding index_bans
load_submission_bans rows = do bans ← rows; ok (index_bans [] bans)

unfoldable pub is_banned : SubmissionBans → ℤ → Bool
is_banned bans id = elim (lookup id bans) [ none ↦ false | some _ ↦ true ]

pick_pipelines : SubmissionBans → Dict String Pipeline → List Pipeline → Dict String Pipeline
unfolding pipeline_less classify_pipeline_status is_banned
pick_pipelines bans m [] = m
pick_pipelines bans m (p ∷ ps) = elim (is_banned bans p.id) [
  | true ↦ pick_pipelines bans m ps
  | false ↦ pick_pipelines bans (insert p.task (challenge pipeline_less (lookup p.task m) p) m) ps
]

unfoldable pub load_user_pipelines :
    User
    → (String → Result Error (List Pipeline))
    → SubmissionBans
    → Result Error (Dict String Pipeline)
unfolding pick_pipelines
load_user_pipelines user provider bans = do
  pipelines ← wrap "failed to list user pipelines" (provider (get_project_name user))
  ok (pick_pipelines bans [] pipelines)

abbrev pub flag_less : Flag → Flag → Bool
flag_less flag prev = before flag.created_at prev.created_at

pick_flags : Dict String Flag → List Flag → Dict String Flag
pick_flags m [] = m
pick_flags m (f ∷ fs) = pick_flags (insert f.task (challenge flag_less (lookup f.task m) f) m) fs

unfoldable pub load_user_flags :
    User → (String → Result Error (List Flag)) → Result Error (Dict String Flag)
unfolding pick_flags
load_user_flags user provider = do
  login ← deref user.gitlab_login
  flags ← wrap "Failed to list user flags" (provider login)
  ok (pick_flags [] flags)
