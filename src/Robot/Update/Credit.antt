-- ===== src/Robot/Update/Credit.antt =====
-- The robot and the scorer: what the robot merges, the scorer credits.
use notmanytuples.Prelude.{
  String, ◌≡◌, true, false, Option, some, List, arith, if◌then◌else◌, string_eq, eq_iff,
}
use notmanytuples.Prelude.Int.{ℤ, pos, int_lt, ◌-ℤ◌, ◌+ℤ◌, to_int64, to_int64_fits, ◌≤ℤ◌}
use notmanytuples.Prelude.Lists.{In-keep, any_of-In}
use notmanytuples.Prelude.Time.{Time, before, time_add, time_sub, max_duration}
use notmanytuples.Prelude.Float.{Float}
use notmanytuples.Config.{MergeRequestsConfig}
use notmanytuples.Models.{
  User, MergeRequest, merge_request_state_opened, merge_request_state_merged,
}
use notmanytuples.Deadlines.{ScoringPolicy, Task, TaskGroup, Deadlines}
use notmanytuples.Scorer.Environment.{Environment}
use notmanytuples.Scorer.Results.{
  ScoredTask, status_success, status_review_pending, status_review_resolved,
}
use notmanytuples.Scorer.MergeRequests.{
  MergeRequestInfo, classify_merge_request, is_creditable, has_notes,
}
use notmanytuples.Scorer.Scoring.{score_merge_request, time_to_merge}
use notmanytuples.Robot.Requests.{collect_requests}
use notmanytuples.Robot.Requests.Newest.{is_opened, collect_requests_lem}
use notmanytuples.Robot.Update.{ready_to_merge, review_deadline_of}
use notmanytuples.Robot.Update.Rule.{ready_to_merge-IsQuiet}

module _ {F : Type 0} (fl : Float F) (env : Environment) (conf : MergeRequestsConfig) where
  module _ (scored : ScoredTask) (policy : Option (ScoringPolicy F)) (d : Deadlines F) (user : User)
      (task : Task F) (group : TaskGroup F) (info : MergeRequestInfo) where
    -- The status that the scorer shows for a task that the request represents.
    abbrev pub shown_status : MergeRequest → String
    shown_status mr =
        (score_merge_request fl env conf scored policy d user task group
          (record info { merge_request = mr })).status

    -- A request that the robot accepts, as the open one among the rows of a branch, is shown as
    -- waiting for its merge: resolved by review if it has notes, and pending otherwise. Once GitLab
    -- has merged it, and nothing else of its row has changed, it is shown as a success.
    pub accepted_request_credited :
        (rows : List MergeRequest) (mr : MergeRequest) (review_deadline : Time)
        → (collect_requests rows).opened ≡ some mr
        → ready_to_merge (collect_requests rows) mr review_deadline ≡ true
        → (shown_status mr
            ≡ (if has_notes mr then status_review_resolved else status_review_pending))
          × (shown_status (record mr { state = merge_request_state_merged }) ≡ status_success)
    unfolding score_merge_request classify_merge_request is_creditable
    accepted_request_credited rows mr review_deadline found ready =
        let (newest, _, _, _, unresolved, _) = collect_requests_lem rows in
        let (own, none_unresolved, _) =
          ready_to_merge-IsQuiet (collect_requests rows) mr review_deadline ready in
        let (member, opened) = In-keep is_opened mr rows (newest mr found).member in
        let open_state : mr.state ≡ merge_request_state_opened =
          (eq_iff mr.state merge_request_state_opened).0 opened in
        let resolved : mr.has_unresolved_notes ≡ false =
          ground (arith, any_of-In (λ r. r.has_unresolved_notes) mr rows member) in
        (
          rw (open_state, own.green, own.mergeable, resolved)
              (ground (arith, own.own_files, own.some_files)),
          rw own.green (ground (arith, own.has_pipeline)),
        )

neg_fits : (ttl : ℤ) → pos 0 ≤ℤ ttl → ttl ≤ℤ max_duration → to_int64 (pos 0 -ℤ ttl) ≡ pos 0 -ℤ ttl
unfolding ◌-ℤ◌
neg_fits ttl h k = to_int64_fits (pos 0 -ℤ ttl) (ground arith)

-- A time before `now - ttl` has no time left.
none_left :
    (now last ttl : ℤ)
    → before last (time_add now (pos 0 -ℤ ttl)) ≡ true
    → int_lt (pos 0) (time_sub (time_add last ttl) now) ≡ false
unfolding time_add time_sub ◌-ℤ◌ ◌+ℤ◌
none_left now last ttl h = ground arith

-- When the robot's conditions on times hold, the countdown to the merge is over: with a review
-- period of 0 to 2^63 - 1 nanoseconds, and a last pipeline and a last note both before the
-- robot's deadline, the scorer shows no time left.
pub quiet_request_no_countdown :
    (env : Environment) (conf : MergeRequestsConfig) (mr : MergeRequest)
    → pos 0 ≤ℤ conf.review_ttl
    → conf.review_ttl ≤ℤ max_duration
    → before mr.last_pipeline_created_at (review_deadline_of conf env.now) ≡ true
    → before mr.last_note_created_at (review_deadline_of conf env.now) ≡ true
    → time_to_merge env conf mr ≡ ""
unfolding time_to_merge review_deadline_of
quiet_request_no_countdown env conf mr h0 h1 hp hn =
    let fits = neg_fits conf.review_ttl h0 h1 in
    ground (
      arith,
      fits,
      none_left env.now mr.last_pipeline_created_at conf.review_ttl,
      none_left env.now mr.last_note_created_at conf.review_ttl,
    )
