-- ===== src/Robot/Fresh.antt =====
-- internal/gitlab/pipelines.go: the pipelines that a student's run reported, until they end.
pub mod Queue
use notmanytuples.Prelude.{
  String, Bool, true, false, not, ◌&&◌, Option, none, some, List, [], ◌∷◌, if◌then◌else◌, ◌==◌,
  string_eq,
}
use notmanytuples.Prelude.Int.{ℤ}
use notmanytuples.Prelude.Time.{Time}
use notmanytuples.Models.{Pipeline, pipeline_status_running}
use notmanytuples.Result.{Result, ok, err}
use notmanytuples.Scorer.Errors.{Error, wrap_error}
use notmanytuples.Robot.Branch.{parse_task_from_branch}

pub record QualifiedPipelineId : Type 0 where
  pub project : String
  pub id : ℤ

-- A pipeline as GitLab answers; it always says when it was created.
pub record PipelineReply : Type 0 where
  pub id : ℤ
  pub ref : String
  pub status : String
  pub created_at : Time

-- What `MergeRequestPipelineTask` answers for a project and a ref: a task, and whether the ref is
-- one of a merge request.
abbrev pub TaskLookup : Type 0
TaskLookup = String → String → String × Bool

unfoldable pub task_of_ref : TaskLookup → String → String → String
unfolding parse_task_from_branch
task_of_ref merge_request_task project ref =
    let (task, is_merge_request) = merge_request_task project ref in
    if is_merge_request && not (task == "") then task else parse_task_from_branch ref

-- GitLab by the name of the project, the database with its state `S`, and its table of requests.
module _ {S : Type 0} (get_pipeline : String → ℤ → Result Error PipelineReply)
    (store : S → Pipeline → S × Option Error) (merge_request_task : TaskLookup) where
  unfoldable pub add_fresh_row : S → String → PipelineReply → S × Option Error
  unfolding task_of_ref
  add_fresh_row s project reply = store s (record {
    id = reply.id;
    project = project;
    task = task_of_ref merge_request_task project reply.ref;
    status = reply.status;
    started_at = reply.created_at;
  })

  -- The status that was fetched, or the error.
  fetched : PipelineReply → S × Option Error → S × Result Error String
  fetched reply (t, none) = (t, ok reply.status)
  fetched reply (t, some e) = (t, err e)

  unfoldable pub fetch_pipeline : S → QualifiedPipelineId → S × Result Error String
  unfolding add_fresh_row fetched
  fetch_pipeline s queued = elim (get_pipeline queued.project queued.id) [
    | err e ↦ (s, err (wrap_error "Failed to fetch pipeline" e))
    | ok reply ↦ fetched reply (add_fresh_row s queued.project reply)
  ]

  -- Whether the pipeline leaves the queue.
  unfoldable pub is_removed : Result Error String → Bool
  is_removed (err e) = false
  is_removed (ok status) = not (status == pipeline_status_running)

  -- A round over the queue: the database, and what is left of the queue.
  unfoldable pub fetch_fresh_pipelines : S → List QualifiedPipelineId → S × List QualifiedPipelineId
  unfolding fetch_pipeline is_removed
  fetch_fresh_pipelines s [] = (s, [])
  fetch_fresh_pipelines s (queued ∷ queue) =
      let (t, found) = fetch_pipeline s queued in
      let (u, left) = fetch_fresh_pipelines t queue in
      (u, if is_removed found then left else queued ∷ left)
