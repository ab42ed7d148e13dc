-- ===== src/Scorer/Results.antt =====
-- internal/scorer/results.go: the scores as they are shown.
use notmanytuples.Prelude.{String, Bool, List, if◌then◌else◌, ◌==◌, string_eq}
use notmanytuples.Prelude.Int.{ℤ}
use notmanytuples.Prelude.Time.{Time}
use notmanytuples.Prelude.Text.{◌<>◌}
use notmanytuples.Models.{
  pipeline_status_banned, pipeline_status_failed, pipeline_status_pending, pipeline_status_running,
  pipeline_status_success, pipeline_status_canceled,
}

abbrev pub status_assigned : String
status_assigned = "assigned"

abbrev pub status_banned : String
status_banned = "banned"

abbrev pub status_failed : String
status_failed = "failed"

abbrev pub status_checking : String
status_checking = "checking"

abbrev pub status_success : String
status_success = "success"

abbrev pub status_review_pending : String
status_review_pending = "review_pending"

abbrev pub status_review_unresolved : String
status_review_unresolved = "review_unresolved"

abbrev pub status_review_resolved : String
status_review_resolved = "review_resolved"

-- `ClassifyPipelineStatus`.
unfoldable pub shown_pipeline_status : String → String
shown_pipeline_status status =
    if status == pipeline_status_banned
    then status_banned
    else if status == pipeline_status_failed
    then status_failed
    else if status == pipeline_status_canceled
    then status_failed
    else if status == pipeline_status_pending
    then status_checking
    else if status == pipeline_status_running
    then status_checking
    else if status == pipeline_status_success
    then status_success
    else status_assigned

pub record ScoredTask : Type 0 where
  pub task : String
  pub short_name : String
  pub status : String
  pub score : ℤ
  pub max_score : ℤ
  pub overridden : Bool
  pub message : String
  pub has_review : Bool
  pub task_url : String
  pub pipeline_url : String
  pub branch_url : String
  pub rank : ℤ
  pub leaderboard_url : String

pub record ScoredTaskGroup : Type 0 where
  pub title : String
  pub pretty_title : String
  pub deadline : Time
  pub tasks : List ScoredTask
  pub score : ℤ
  pub max_score : ℤ

pub record ScoredUser : Type 0 where
  pub first_name : String
  pub last_name : String
  pub email : String
  pub group : String
  pub subgroup : String
  pub gitlab_login : String
  pub gitlab_project : String

unfoldable pub full_name : ScoredUser → String
full_name u = u.first_name <> " " <> u.last_name

pub record UserScores (F : Type 0) : Type 0 where
  pub groups : List ScoredTaskGroup
  pub score : ℤ
  pub max_score : ℤ
  pub final_mark : F
  pub user : ScoredUser
