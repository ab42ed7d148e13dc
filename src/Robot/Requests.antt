-- ===== src/Robot/Requests.antt =====
-- internal/gitlab/merge_requests.go, `loadBranchMergeRequests`: the requests of a branch.
pub mod Newest
use notmanytuples.Prelude.{
  String, Bool, true, false, Option, none, some, List, [], ◌∷◌, if◌then◌else◌, ◌==◌, string_eq,
}
use notmanytuples.Prelude.Best.{challenge}
use notmanytuples.Prelude.Time.{Time, before, after, zero_time}
use notmanytuples.Models.{MergeRequest, merge_request_state_opened, merge_request_state_merged}
use notmanytuples.Result.{Result, ok, err, ◌>>=◌}
use notmanytuples.Scorer.Errors.{Error, wrap}
use notmanytuples.Robot.Branch.{parse_task_from_branch}

pub record BranchMergeRequests : Type 0 where
  pub opened : Option MergeRequest
  pub merged : Option MergeRequest
  pub has_unresolved_notes : Bool
  pub last_note_created_at : Time

-- `result.Open.StartedAt.Before(mr.StartedAt)`.
abbrev pub newer : MergeRequest → MergeRequest → Bool
newer mr prev = before prev.started_at mr.started_at

-- One round of the loop over the requests.
add_request : BranchMergeRequests → MergeRequest → BranchMergeRequests
add_request result mr = record {
  opened =
      if mr.state == merge_request_state_opened
      then some (challenge newer result.opened mr)
      else result.opened;
  merged =
      if mr.state == merge_request_state_opened
      then result.merged
      else if mr.state == merge_request_state_merged
      then some (challenge newer result.merged mr)
      else result.merged;
  has_unresolved_notes = if mr.has_unresolved_notes then true else result.has_unresolved_notes;
  last_note_created_at =
      if after mr.last_note_created_at result.last_note_created_at
      then mr.last_note_created_at
      else result.last_note_created_at;
}

add_requests : BranchMergeRequests → List MergeRequest → BranchMergeRequests
unfolding add_request
add_requests result [] = result
add_requests result (mr ∷ mrs) = add_requests (add_request result mr) mrs

unfoldable pub collect_requests : List MergeRequest → BranchMergeRequests
unfolding add_requests
collect_requests = add_requests (record {
  opened = none;
  merged = none;
  has_unresolved_notes = false;
  last_note_created_at = zero_time;
})

-- The rows are those of the project and of the task that the branch names.
unfoldable pub load_branch_merge_requests :
    (String → String → Result Error (List MergeRequest))
    → String
    → String
    → Result Error BranchMergeRequests
unfolding collect_requests parse_task_from_branch
load_branch_merge_requests list_requests project branch = do
  merge_requests ←
      wrap "Failed to list branch merge requests"
        (list_requests project (parse_task_from_branch branch))
  ok (collect_requests merge_requests)
