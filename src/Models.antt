-- ===== src/Models.antt =====
-- internal/models: the rows of the database. Statuses and states are texts, as in the source.
use notmanytuples.Prelude.{ℕ, String, Bool, Option, none, some}
use notmanytuples.Prelude.Int.{ℤ}
use notmanytuples.Prelude.Time.{Time}
use notmanytuples.Prelude.Text.{path_base}

pub record User : Type 0 where
  pub id : ℕ
  pub gitlab_id : Option ℤ
  pub gitlab_login : Option String
  pub repository : Option String
  pub first_name : String
  pub last_name : String
  pub group_name : String
  pub subgroup_name : String
  pub email : String
  pub telegram_id : Option ℤ
  pub has_retake : Bool

unfoldable pub get_project_name : User → String
get_project_name u = elim u.repository [ none ↦ "" | some url ↦ path_base url ]

pub record Pipeline : Type 0 where
  pub id : ℤ
  pub project : String
  pub task : String
  pub status : String
  pub started_at : Time

pub record Flag : Type 0 where
  pub id : String
  pub task : String
  pub gitlab_login : Option String
  pub created_at : Time

pub record MergeRequest : Type 0 where
  pub id : ℤ
  pub project : String
  pub task : String
  pub state : String
  pub user_notes_count : ℤ
  pub started_at : Time
  pub merge_status : String
  pub iid : ℤ
  pub sha : String
  pub merge_user_login : String
  pub has_unresolved_notes : Bool
  pub last_note_created_at : Time
  pub last_pipeline_id : ℤ
  pub last_pipeline_status : String
  pub last_pipeline_created_at : Time
  pub extra_changes : Bool
  pub no_changes : Bool

pub record OverriddenScore : Type 0 where
  pub gitlab_login : String
  pub task : String
  pub score : ℤ
  pub status : String

pub record SubmissionBan : Type 0 where
  pub pipeline_id : ℤ
  pub reason : String
  pub admin_login : String
  pub created_at : Time

abbrev pub pipeline_status_banned : String
pipeline_status_banned = "banned"

abbrev pub pipeline_status_failed : String
pipeline_status_failed = "failed"

abbrev pub pipeline_status_pending : String
pipeline_status_pending = "pending"

abbrev pub pipeline_status_running : String
pipeline_status_running = "running"

abbrev pub pipeline_status_success : String
pipeline_status_success = "success"

abbrev pub pipeline_status_canceled : String
pipeline_status_canceled = "canceled"

abbrev pub merge_request_state_opened : String
merge_request_state_opened = "opened"

abbrev pub merge_request_state_closed : String
merge_request_state_closed = "closed"

abbrev pub merge_request_state_merged : String
merge_request_state_merged = "merged"

abbrev pub merge_request_status_can_be_merged : String
merge_request_status_can_be_merged = "can_be_merged"

abbrev pub merge_request_status_cannot_be_merged : String
merge_request_status_cannot_be_merged = "cannot_be_merged"
