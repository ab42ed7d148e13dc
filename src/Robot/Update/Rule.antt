-- ===== src/Robot/Update/Rule.antt =====
-- What the robot calls, and when: each call stands on the requests of the branch.
use notmanytuples.Prelude.{
  String, ◌≡◌, ◌≢◌, refl, inl, inr, true, false, not, ◌||◌, Option, none, some, List, [], arith,
  string_eq, Bool-cases, eq_iff,
}
use notmanytuples.Prelude.Int.{pos, int_eq}
use notmanytuples.Prelude.Lists.{In, keep, any_of-In}
use notmanytuples.Prelude.Best.{IsBest}
use notmanytuples.Prelude.Time.{Time, before, is_zero}
use notmanytuples.Config.{MergeRequestsConfig, get_target_branch}
use notmanytuples.Models.{MergeRequest, merge_request_status_can_be_merged, pipeline_status_success}
use notmanytuples.Result.{Result, ok}
use notmanytuples.Scorer.Errors.{Error, wrap}
use notmanytuples.Robot.Branch.{parse_task_from_branch}
use notmanytuples.Robot.Requests.{
  BranchMergeRequests, newer, collect_requests, load_branch_merge_requests,
}
use notmanytuples.Robot.Requests.Newest.{is_opened, is_merged, collect_requests_lem}
use notmanytuples.Robot.Update.{
  Branch, Call, create_merge_request, accept_merge_request, needs_merge_request, ready_to_merge,
  send_call, update_opened, head_of, update_branch,
}

-- What `readyToMerge` asks of the request itself.
pub record IsQuiet (mr : MergeRequest) (review_deadline : Time) : Type 0 where
  pub mergeable : mr.merge_status ≡ merge_request_status_can_be_merged
  pub has_sha : mr.sha ≢ ""
  pub own_files : mr.extra_changes ≡ false
  pub some_files : mr.no_changes ≡ false
  pub green : mr.last_pipeline_status ≡ pipeline_status_success
  pub has_pipeline : is_zero mr.last_pipeline_created_at ≡ false
  pub old_pipeline : before mr.last_pipeline_created_at review_deadline ≡ true

pub ready_to_merge-IsQuiet :
    (mrs : BranchMergeRequests) (mr : MergeRequest) (d : Time)
    → ready_to_merge mrs mr d ≡ true
    → IsQuiet mr d × (mrs.has_unresolved_notes ≡ false) × (before mrs.last_note_created_at d ≡ true)
unfolding ready_to_merge
ready_to_merge-IsQuiet mrs mr d h = (
  record {
    mergeable = ground (arith, eq_iff mr.merge_status merge_request_status_can_be_merged);
    has_sha = λ e. absurd (ground (arith, eq_iff mr.sha ""));
    own_files = ground arith;
    some_files = ground arith;
    green = ground (arith, eq_iff mr.last_pipeline_status pipeline_status_success);
    has_pipeline = ground arith;
    old_pipeline = ground arith;
  },
  ground arith,
  ground arith,
)

-- A call that the requests `rows` of a branch justify.
pub data IsJustified (conf : MergeRequestsConfig) (review_deadline : Time) (branch : Branch)
    (rows : List MergeRequest) : Call → Type 0 where
  never_merged :
      keep is_opened rows ≡ []
      → keep is_merged rows ≡ []
      → IsJustified conf review_deadline branch rows
          (create_merge_request branch.name (get_target_branch conf) branch.name)
  moved_on :
      (merged : MergeRequest) (head : String)
      → keep is_opened rows ≡ []
      → IsBest newer merged (keep is_merged rows)
      → branch.commit_id ≡ some head
      → merged.sha ≢ head
      → IsJustified conf review_deadline branch rows
          (create_merge_request branch.name (get_target_branch conf) branch.name)
  quiet :
      (opened : MergeRequest)
      → conf.review_ttl ≢ pos 0
      → IsBest newer opened (keep is_opened rows)
      → IsQuiet opened review_deadline
      → ((mr : MergeRequest)
          → In mr rows
          → (mr.has_unresolved_notes ≡ false)
            × (before mr.last_note_created_at review_deadline ≡ true))
      → IsJustified conf review_deadline branch rows
          (accept_merge_request opened.iid "Automatic merge" opened.sha)

module _ (conf : MergeRequestsConfig) (d : Time) (branch : Branch) (rows : List MergeRequest) where
  quiet_notes :
      (collect_requests rows).has_unresolved_notes ≡ false
      → before (collect_requests rows).last_note_created_at d ≡ true
      → (mr : MergeRequest) → In mr rows
      → (mr.has_unresolved_notes ≡ false) × (before mr.last_note_created_at d ≡ true)
  quiet_notes h k mr m =
      let (_, _, _, _, unresolved, last) = collect_requests_lem rows in
      (
        ground (arith, any_of-In (λ mr. mr.has_unresolved_notes) mr rows m),
        ground (arith, last mr m),
      )

  needed :
      (head : Option String) (merged : Option MergeRequest)
      → branch.commit_id ≡ head
      → (collect_requests rows).merged ≡ merged
      → keep is_opened rows ≡ []
      → needs_merge_request (collect_requests rows) (head_of head) ≡ true
      → IsJustified conf d branch rows
          (create_merge_request branch.name (get_target_branch conf) branch.name)
  unfolding needs_merge_request head_of
  needed none none hh hm none_open h =
      let (_, _, _, none_merged, _, _) = collect_requests_lem rows in
      never_merged none_open (none_merged hm)
  needed (some head) none hh hm none_open h =
      let (_, _, _, none_merged, _, _) = collect_requests_lem rows in
      never_merged none_open (none_merged hm)
  needed none (some m) hh hm none_open h = absurd (ground arith)
  needed (some head) (some m) hh hm none_open h =
      let (_, _, newest, _, _, _) = collect_requests_lem rows in
      moved_on m head none_open (newest m hm) hh (λ e. absurd (ground (arith, eq_iff head m.sha)))

-- A result of the robot's round on a branch: nothing, or one call that the requests justify.
pub data IsRound {S : Type 0} (send : S → Call → S × Option Error) (conf : MergeRequestsConfig)
    (review_deadline : Time) (branch : Branch) (rows : List MergeRequest) (s : S)
    : S × Option Error → Type 0 where
  nothing : IsRound send conf review_deadline branch rows s (s, none)
  called :
      (message : String) (call : Call)
      → IsJustified conf review_deadline branch rows call
      → IsRound send conf review_deadline branch rows s (send_call send s message call)

module _ {S : Type 0} (send : S → Call → S × Option Error)
    (list_requests : String → String → Result Error (List MergeRequest))
    (conf : MergeRequestsConfig) (s : S) (project : String) (branch : Branch) (d : Time)
    (rows : List MergeRequest) where
  update_opened_lem :
      (opened : Option MergeRequest)
      → (collect_requests rows).opened ≡ opened
      → IsRound send conf d branch rows s
          (update_opened send list_requests conf s branch (collect_requests rows) d opened)
  unfolding update_opened
  update_opened_lem none h =
      let (_, none_open, _, _, _, _) = collect_requests_lem rows in
      elim (Bool-cases (needs_merge_request (collect_requests rows) (head_of branch.commit_id))) [
        | inl e ↦ rw e (
            called "Failed to create merge request" _ (
              needed conf d branch rows branch.commit_id (collect_requests rows).merged refl refl
                (none_open h) e))
        | inr e ↦ rw e nothing
      ]
  update_opened_lem (some opened) h =
      let test =
        int_eq conf.review_ttl (pos 0) || not (ready_to_merge (collect_requests rows) opened d) in
      elim (Bool-cases test) [
        | inl e ↦ rw e nothing
        | inr e ↦
            let (own, unresolved, last) =
              ready_to_merge-IsQuiet (collect_requests rows) opened d (ground arith) in
            rw e (
              called "Failed to accept merge request" _ (
                quiet opened (ground arith) ((collect_requests_lem rows).0 opened h) own
                  (quiet_notes conf d branch rows unresolved last)))
      ]

  -- Where the table of requests answers, a round on a branch does nothing, or makes one call:
  -- it creates a request from the branch into the target branch, when none is open and none was
  -- merged or the branch has moved past the head of the newest merged one; or, with a review period
  -- set, it accepts the newest open request at its commit, when that request is quiet and no request
  -- of the task has unresolved notes or a last note within the review period.
  pub update_branch_justified :
      list_requests project (parse_task_from_branch branch.name) ≡ ok rows
      → IsRound send conf d branch rows s (update_branch send list_requests conf s project branch d)
  unfolding update_branch load_branch_merge_requests wrap
  update_branch_justified h =
      rw (h, update_branch) (update_opened_lem (collect_requests rows).opened refl)
