-- ===== src/Robot/Update.antt =====
-- internal/gitlab/merge_requests.go, `updateProject`: requests are created, and quiet ones merged.
pub mod Rule
pub mod Credit
use notmanytuples.Prelude.{
  String, Bool, true, false, not, ◌&&◌, ◌||◌, Option, none, some, List, [], ◌∷◌, if◌then◌else◌,
  ◌==◌, string_eq,
}
use notmanytuples.Prelude.Int.{ℤ, pos, int_eq, ◌-ℤ◌, to_int64}
use notmanytuples.Prelude.Time.{Time, before, is_zero, time_add}
use notmanytuples.Config.{MergeRequestsConfig, get_target_branch}
use notmanytuples.Models.{MergeRequest, merge_request_status_can_be_merged, pipeline_status_success}
use notmanytuples.Result.{Result, ok, err}
use notmanytuples.Scorer.Errors.{Error, wrap_error}
use notmanytuples.Robot.Branch.{is_submit_branch}
use notmanytuples.Robot.Requests.{BranchMergeRequests, load_branch_merge_requests}

-- A branch as GitLab lists it: its name and the id of its last commit, where it has one.
pub record Branch : Type 0 where
  pub name : String
  pub commit_id : Option String

-- The calls that change something in GitLab, with the options that are set.
pub data Call : Type 0 where
  create_merge_request : (source_branch target_branch title : String) → Call
  accept_merge_request : (iid : ℤ) (merge_commit_message sha : String) → Call

unfoldable pub needs_merge_request : BranchMergeRequests → String → Bool
needs_merge_request mrs head = elim mrs.merged [
  | none ↦ true
  | some merged ↦ not (head == "") && not (merged.sha == "") && not (head == merged.sha)
]

-- `open` is `mrs.Open`, which the caller has found set.
unfoldable pub ready_to_merge : BranchMergeRequests → MergeRequest → Time → Bool
ready_to_merge mrs opened review_deadline =
    opened.merge_status == merge_request_status_can_be_merged
    && not (opened.sha == "")
    && not mrs.has_unresolved_notes
    && before mrs.last_note_created_at review_deadline
    && not opened.extra_changes
    && not opened.no_changes
    && opened.last_pipeline_status == pipeline_status_success
    && not (is_zero opened.last_pipeline_created_at)
    && before opened.last_pipeline_created_at review_deadline

-- `time.Now().Add(-p.conf.ReviewTtl)`.
unfoldable pub review_deadline_of : MergeRequestsConfig → Time → Time
review_deadline_of conf now = time_add now (to_int64 (pos 0 -ℤ conf.review_ttl))

-- `head`: the id of the last commit, or nothing.
unfoldable pub head_of : Option String → String
head_of none = ""
head_of (some id) = id

-- A call, the error of its answer wrapped.
unfoldable pub send_call :
    {S : Type 0} → (S → Call → S × Option Error) → S → String → Call → S × Option Error
unfolding wrap_error
send_call send s message call =
    let (t, failure) = send s call in
    elim failure [ none ↦ (t, none) | some e ↦ (t, some (wrap_error message e)) ]

-- GitLab with its state `S` and its answer to a call, and the table of requests.
module _ {S : Type 0} (send : S → Call → S × Option Error)
    (list_requests : String → String → Result Error (List MergeRequest))
    (conf : MergeRequestsConfig) where
  -- The two cases of `mrs.Open`.
  update_opened : S → Branch → BranchMergeRequests → Time → Option MergeRequest → S × Option Error
  unfolding send_call needs_merge_request ready_to_merge get_target_branch head_of
  update_opened s branch mrs review_deadline none =
      if not (needs_merge_request mrs (head_of branch.commit_id))
      then (s, none)
      else send_call send s "Failed to create merge request"
          (create_merge_request branch.name (get_target_branch conf) branch.name)
  update_opened s branch mrs review_deadline (some opened) =
      if int_eq conf.review_ttl (pos 0) || not (ready_to_merge mrs opened review_deadline)
      then (s, none)
      else send_call send s "Failed to accept merge request"
          (accept_merge_request opened.iid "Automatic merge" opened.sha)

  unfoldable pub update_branch : S → String → Branch → Time → S × Option Error
  unfolding update_opened load_branch_merge_requests
  update_branch s project branch review_deadline =
      elim (load_branch_merge_requests list_requests project branch.name) [
        | err e ↦ (s, some e)
        | ok mrs ↦ update_opened s branch mrs review_deadline mrs.opened
      ]

  -- The loop over the branches of all pages; an error of a branch is logged and passed over.
  update_branches : S → String → List Branch → Time → S
  unfolding update_branch
  update_branches s project [] review_deadline = s
  update_branches s project (branch ∷ branches) review_deadline =
      if not (is_submit_branch branch.name)
      then update_branches s project branches review_deadline
      else update_branches (update_branch s project branch review_deadline).0 project branches
          review_deadline

  unfoldable pub update_project : S → String → List Branch → Time → S
  unfolding update_branches review_deadline_of
  update_project s project branches now =
      update_branches s project branches (review_deadline_of conf now)
