-- ===== src/Scorer/Scoring/Table.antt =====
-- The table of merge request statuses of internal/scorer/results.go and docs/merge-requests.md,
-- against the status that `scoreMergeRequest` shows.
use notmanytuples.Prelude.{String, ◌&&◌, if◌then◌else◌, ◌==◌, string_eq}
use notmanytuples.Prelude.Float.{Float}
use notmanytuples.Models.{
  MergeRequest, pipeline_status_failed, pipeline_status_success, merge_request_state_closed,
  merge_request_state_merged, merge_request_status_cannot_be_merged,
}
use notmanytuples.Deadlines.{Deadlines}
use notmanytuples.Scorer.Environment.{Environment}
use notmanytuples.Scorer.Results.{
  status_success, status_failed, status_review_pending, status_review_unresolved,
  status_review_resolved,
}
use notmanytuples.Scorer.MergeRequests.{has_notes}

-- The rows of the table from the top, "open" being any state that is not closed or merged.
pub documented_status : MergeRequest → String
documented_status mr =
    if mr.state == merge_request_state_closed
    then status_review_pending
    else if mr.state == merge_request_state_merged
    then (if mr.last_pipeline_status == pipeline_status_success
        then status_success
        else status_failed)
    else if mr.last_pipeline_status == pipeline_status_failed
    then status_failed
    else if mr.extra_changes
    then status_failed
    else if mr.no_changes
    then status_failed
    else if mr.merge_status == merge_request_status_cannot_be_merged
    then status_failed
    else if has_notes mr && mr.has_unresolved_notes
    then status_review_unresolved
    else if has_notes mr
    then status_review_resolved
    else status_review_pending
