-- ===== src/Scorer/Scoring.antt =====
-- internal/scorer/scorer.go: the score of a pipeline and of a merge request.
pub mod Table
use notmanytuples.Prelude.{
  ℕ, String, Bool, true, false, not, ◌&&◌, ◌||◌, Option, none, some, if◌then◌else◌, eqb, ◌==◌,
  string_eq,
}
use notmanytuples.Prelude.Int.{ℤ, pos, negsuc, int_lt, int_eq, int_Eq}
use notmanytuples.Prelude.Time.{Time, Duration, before, after, time_add, time_sub}
use notmanytuples.Prelude.Float.{Float}
use notmanytuples.Config.{MergeRequestsConfig}
use notmanytuples.Models.{User, Pipeline, MergeRequest, pipeline_status_success}
use notmanytuples.Deadlines.{ScoringPolicy, Task, TaskGroup, Deadlines, policy_score}
use notmanytuples.Scorer.Environment.{Environment}
use notmanytuples.Scorer.Results.{
  ScoredTask, status_success, status_failed, status_review_pending, status_review_unresolved,
  status_review_resolved,
}
use notmanytuples.Scorer.MergeRequests.{
  MergeRequestInfo, classify_merge_request, is_creditable, merge_request_closed,
  merge_request_pending, merge_request_on_review, merge_request_review_resolved,
  merge_request_cant_be_merged, merge_request_has_extra_changes, merge_request_no_changes,
  merge_request_pipeline_failed, merge_request_merged,
}

unfoldable pub time_to_merge : Environment → MergeRequestsConfig → MergeRequest → String
time_to_merge env conf mr =
    if int_eq conf.review_ttl (pos 0)
    then ""
    else let last =
        if after mr.last_note_created_at mr.last_pipeline_created_at
        then mr.last_note_created_at
        else mr.last_pipeline_created_at in
      let left = time_sub (time_add last conf.review_ttl) env.now in
      if not (int_lt (pos 0) left) then "" else env.format_minutes left

module _ {F : Type 0} (fl : Float F) where
  -- The final deadline, then the policy of the group.
  unfoldable pub score_by_deadline : ScoringPolicy F → Deadlines F → Task F → TaskGroup F → Time → ℤ
  score_by_deadline policy d task group started_at =
      let by_policy = policy_score fl policy task.score group.deadline started_at in
      elim d.scoring.final_deadline [
        | none ↦ by_policy
        | some deadline ↦ if after started_at deadline then pos 0 else by_policy
      ]

  -- Of the pipeline it reads the status and the start.
  unfoldable pub score_pipeline :
      Option (ScoringPolicy F) → Deadlines F → User → Task F → TaskGroup F → String → Time → ℤ
  unfolding score_by_deadline
  score_pipeline policy d user task group status started_at =
      if not (status == pipeline_status_success) then pos 0 else elim policy [
        | none ↦ negsuc 0
        | some p ↦
            let score = score_by_deadline p d task group started_at in
            let min_score = fl.to_int (fl.mul (fl.of_int task.score) d.scoring.retake_penalty) in
            if user.has_retake then (if int_lt score min_score then min_score else score) else score
      ]

  unfoldable pub score_merge_request :
      Environment
      → MergeRequestsConfig
      → ScoredTask
      → Option (ScoringPolicy F)
      → Deadlines F
      → User
      → Task F
      → TaskGroup F
      → MergeRequestInfo
      → ScoredTask
  unfolding score_pipeline time_to_merge
  score_merge_request env conf scored policy d user task group info =
      let mr = info.merge_request in
      let status = classify_merge_request mr in
      let shown = record scored {
        pipeline_url = env.projects.make_merge_request_url user mr;
        has_review =
            info.has_user_notes
            || eqb status merge_request_merged && not (mr.merge_user_login == conf.robot_login);
      } in
      if eqb status merge_request_merged
      then (if is_creditable mr
          then record shown {
            status = status_success;
            score =
                score_pipeline policy d user task group mr.last_pipeline_status
                  mr.last_pipeline_created_at;
          }
          else record shown { status = status_failed; message = "pipeline failed" })
      else if eqb status merge_request_pipeline_failed
      then record shown { status = status_failed; message = "pipeline failed" }
      else if eqb status merge_request_has_extra_changes
      then record shown { status = status_failed; message = "extra changes" }
      else if eqb status merge_request_no_changes
      then record shown { status = status_failed; message = "no changes" }
      else if eqb status merge_request_cant_be_merged
      then record shown { status = status_failed; message = "merge conflict" }
      else if eqb status merge_request_on_review
      then record shown { status = status_review_unresolved }
      else if eqb status merge_request_review_resolved
      then record shown { status = status_review_resolved; message = time_to_merge env conf mr }
      else if eqb status merge_request_pending
      then record shown { status = status_review_pending; message = time_to_merge env conf mr }
      else if eqb status merge_request_closed
      then record shown { status = status_review_pending }
      else shown
