-- ===== src/Scorer/MergeRequests.antt =====
-- internal/scorer/scorer.go, the merge request workflow: the state of a request, the request that
-- represents a task, and how it is shown and scored.
pub mod Order
use notmanytuples.Prelude.{
  ℕ, String, Bool, true, false, not, ◌&&◌, ◌||◌, Option, none, some, List, [], ◌∷◌, if◌then◌else◌,
  ltb, eqb, ◌==◌, string_eq,
}
use notmanytuples.Prelude.Int.{ℤ, pos, int_lt, int_eq, int_Eq}
use notmanytuples.Prelude.Dict.{Dict, lookup, insert}
use notmanytuples.Prelude.Time.{Time, Duration, before, after, is_zero, time_add, time_sub}
use notmanytuples.Models.{
  User, Pipeline, MergeRequest, get_project_name, pipeline_status_failed, pipeline_status_success,
  merge_request_state_closed, merge_request_state_merged, merge_request_status_cannot_be_merged,
}
use notmanytuples.Result.{Result, ok, err, ◌>>=◌}
use notmanytuples.Scorer.Errors.{Error, wrap}
use notmanytuples.Scorer.Pipelines.{SubmissionBans, is_banned}

abbrev pub merge_request_closed : ℕ
merge_request_closed = 0

abbrev pub merge_request_pending : ℕ
merge_request_pending = 1

abbrev pub merge_request_on_review : ℕ
merge_request_on_review = 2

abbrev pub merge_request_review_resolved : ℕ
merge_request_review_resolved = 3

abbrev pub merge_request_cant_be_merged : ℕ
merge_request_cant_be_merged = 4

abbrev pub merge_request_has_extra_changes : ℕ
merge_request_has_extra_changes = 5

abbrev pub merge_request_no_changes : ℕ
merge_request_no_changes = 6

abbrev pub merge_request_pipeline_failed : ℕ
merge_request_pipeline_failed = 7

abbrev pub merge_request_merged : ℕ
merge_request_merged = 8

-- `mergeRequest.UserNotesCount > 0`.
abbrev pub has_notes : MergeRequest → Bool
has_notes mr = int_lt (pos 0) mr.user_notes_count

unfoldable pub classify_merge_request : MergeRequest → ℕ
classify_merge_request mr =
    if mr.state == merge_request_state_closed
    then merge_request_closed
    else if mr.state == merge_request_state_merged
    then merge_request_merged
    else if mr.last_pipeline_status == pipeline_status_failed
    then merge_request_pipeline_failed
    else if mr.merge_status == merge_request_status_cannot_be_merged
    then merge_request_cant_be_merged
    else if has_notes mr && mr.has_unresolved_notes
    then merge_request_on_review
    else if has_notes mr
    then merge_request_review_resolved
    else if mr.no_changes
    then merge_request_no_changes
    else if mr.extra_changes
    then merge_request_has_extra_changes
    else merge_request_pending

unfoldable pub is_creditable : MergeRequest → Bool
is_creditable mr =
    mr.last_pipeline_status == pipeline_status_success && not (is_zero mr.last_pipeline_created_at)

abbrev bool_eq : Bool → Bool → Bool
bool_eq true b = b
bool_eq false b = not b

unfoldable pub merge_request_better : MergeRequest → MergeRequest → Bool
merge_request_better candidate current =
    let candidate_status = classify_merge_request candidate in
    let current_status = classify_merge_request current in
    if not (eqb candidate_status current_status)
    then ltb current_status candidate_status
    else if not (eqb candidate_status merge_request_merged)
    then false
    else if not (bool_eq (is_creditable candidate) (is_creditable current))
    then is_creditable candidate
    else is_creditable candidate
      && before candidate.last_pipeline_created_at current.last_pipeline_created_at

pub record MergeRequestInfo : Type 0 where
  pub merge_request : MergeRequest
  pub has_user_notes : Bool

-- One round of the loop of `loadUserMergeRequests`: `none` is a task that is not in the map yet.
unfoldable pub update_info : Option MergeRequestInfo → MergeRequest → MergeRequestInfo
unfolding merge_request_better
update_info none mr = record { merge_request = mr; has_user_notes = has_notes mr }
update_info (some prev) mr = record {
  merge_request = if merge_request_better mr prev.merge_request then mr else prev.merge_request;
  has_user_notes = if has_notes mr then true else prev.has_user_notes;
}

pick_merge_requests :
    SubmissionBans → Dict String MergeRequestInfo → List MergeRequest → Dict String MergeRequestInfo
unfolding update_info is_banned
pick_merge_requests bans m [] = m
pick_merge_requests bans m (mr ∷ mrs) = elim (is_banned bans mr.last_pipeline_id) [
  | true ↦ pick_merge_requests bans m mrs
  | false ↦ pick_merge_requests bans (insert mr.task (update_info (lookup mr.task m) mr) m) mrs
]

unfoldable pub load_user_merge_requests :
    User
    → (String → Result Error (List MergeRequest))
    → SubmissionBans
    → Result Error (Dict String MergeRequestInfo)
unfolding pick_merge_requests
load_user_merge_requests user provider bans = do
  merge_requests ← wrap "Failed to list user merge requests" (provider (get_project_name user))
  ok (pick_merge_requests bans [] merge_requests)
