-- ===== src/Scorer/Scores/Zero.antt =====
-- A task that is not solved scores nothing.
use notmanytuples.Prelude.{
  String, ◌≡◌, refl, inl, inr, Bool, true, false, not, ◌&&◌, Option, none, some, arith,
  if◌then◌else◌, eqb, ◌==◌, string_eq, string_pair_eq, eq_iff, Bool-cases,
}
use notmanytuples.Prelude.Int.{ℤ, pos}
use notmanytuples.Prelude.Dict.{Dict, lookup}
use notmanytuples.Prelude.Time.{Time, after}
use notmanytuples.Prelude.Float.{Float}
use notmanytuples.Config.{MergeRequestsConfig}
use notmanytuples.Models.{User, Pipeline, Flag, OverriddenScore, pipeline_status_success}
use notmanytuples.Deadlines.{ScoringPolicy, LeaderboardSpec, Task, TaskGroup, Deadlines}
use notmanytuples.Scorer.Environment.{Environment}
use notmanytuples.Scorer.Results.{ScoredTask, shown_pipeline_status, status_success}
use notmanytuples.Scorer.MergeRequests.{
  MergeRequestInfo, classify_merge_request, is_creditable, merge_request_closed,
  merge_request_pending, merge_request_on_review, merge_request_review_resolved,
  merge_request_cant_be_merged, merge_request_has_extra_changes, merge_request_no_changes,
  merge_request_pipeline_failed, merge_request_merged,
}
use notmanytuples.Scorer.Leaderboard.{TaskLeaderboard, rank_of}
use notmanytuples.Scorer.Scoring.{score_pipeline, score_merge_request}
use notmanytuples.Scorer.Scores.{
  UserRows, unscored, score_by_pipeline, score_by_request, choose_submission, score_submission,
  place, add_rank, add_leaderboard, apply_override, score_task,
}

==_if : (b : Bool) (x y z : String) → ((if b then x else y) == z) ≡ (if b then x == z else y == z)
==_if true x y z = refl
==_if false x y z = refl

-- A task is shown as solved exactly for a green pipeline.
shown_success :
    (status : String)
    → (shown_pipeline_status status == status_success) ≡ (status == pipeline_status_success)
unfolding shown_pipeline_status
shown_success status = elim (Bool-cases (status == pipeline_status_success)) [
  | inl h ↦ rw ((eq_iff status pipeline_status_success).0 h)
  | inr h ↦ rw h (simp ==_if (ground arith))
]

-- A score other than 0 needs the status of a solved task, and nothing is overridden yet.
record IsEarned (t : ScoredTask) : Type 0 where
  plain : t.overridden ≡ false
  zero_unless_solved : (t.status == status_success) ≡ false → t.score ≡ pos 0

IsEarned-of_zero : {t : ScoredTask} → t.overridden ≡ false → t.score ≡ pos 0 → IsEarned t
IsEarned-of_zero h k = record { plain = h; zero_unless_solved = λ q. k }

IsEarned-of_solved :
    {t : ScoredTask} → t.overridden ≡ false → t.status ≡ status_success → IsEarned t
IsEarned-of_solved {t} h k = record {
  plain = h;
  zero_unless_solved = λ q. absurd (ground (arith, eq_iff t.status status_success));
}

IsEarned-if :
    (b : Bool) {x y : ScoredTask} → IsEarned x → IsEarned y → IsEarned (if b then x else y)
IsEarned-if true hx hy = hx
IsEarned-if false hx hy = hy

module _ {F : Type 0} (fl : Float F) (env : Environment) (d : Deadlines F) (user : User) where
  module _ (rows : UserRows F) (group : TaskGroup F) (policy : Option (ScoringPolicy F)) where
    score_by_pipeline-IsEarned :
        (task : Task F) (o : Option Pipeline)
        → IsEarned (score_by_pipeline fl env d user rows group policy task o).0
    unfolding score_by_pipeline unscored score_pipeline
    score_by_pipeline-IsEarned task none = IsEarned-of_zero refl refl
    score_by_pipeline-IsEarned task (some p) = record {
      plain = refl;
      zero_unless_solved = λ h. ground (arith, shown_success p.status);
    }

    score_merge_request-IsEarned :
        (conf : MergeRequestsConfig) (task : Task F) (scored : ScoredTask) (info : MergeRequestInfo)
        → scored.overridden ≡ false
        → scored.score ≡ pos 0
        → IsEarned (score_merge_request fl env conf scored policy d user task group info)
    unfolding score_merge_request
    score_merge_request-IsEarned conf task scored info h k =
        let mr = info.merge_request in
        let status = classify_merge_request mr in
        IsEarned-if (eqb status merge_request_merged)
          (IsEarned-if (is_creditable mr) (IsEarned-of_solved h refl) (IsEarned-of_zero h k))
          (IsEarned-if (eqb status merge_request_pipeline_failed) (IsEarned-of_zero h k) (
            IsEarned-if (eqb status merge_request_has_extra_changes) (IsEarned-of_zero h k) (
              IsEarned-if (eqb status merge_request_no_changes) (IsEarned-of_zero h k) (
                IsEarned-if (eqb status merge_request_cant_be_merged) (IsEarned-of_zero h k) (
                  IsEarned-if (eqb status merge_request_on_review) (IsEarned-of_zero h k) (
                    IsEarned-if (eqb status merge_request_review_resolved) (IsEarned-of_zero h k) (
                      IsEarned-if (eqb status merge_request_pending) (IsEarned-of_zero h k) (
                        IsEarned-if (eqb status merge_request_closed) (IsEarned-of_zero h k)
                          (IsEarned-of_zero h k)))))))))

    score_by_request-IsEarned :
        (conf : MergeRequestsConfig) (task : Task F) (o : Option MergeRequestInfo)
        → IsEarned (score_by_request fl env d user rows group policy conf task o).0
    unfolding score_by_request unscored
    score_by_request-IsEarned conf task none = IsEarned-of_zero refl refl
    score_by_request-IsEarned conf task (some info) =
        score_merge_request-IsEarned conf task (unscored fl env d user rows group policy task) info
          refl refl

    choose_submission-IsEarned :
        (task : Task F) (flag : Option Flag) (crashme : Bool)
        (requests : Option (MergeRequestsConfig × Dict String MergeRequestInfo))
        → IsEarned (choose_submission fl env d user rows group policy task flag crashme requests).0
    unfolding choose_submission unscored
    choose_submission-IsEarned task (some flag) crashme requests = IsEarned-of_solved refl refl
    choose_submission-IsEarned task none true requests = IsEarned-of_zero refl refl
    choose_submission-IsEarned task none false (some (conf, requests)) =
        score_by_request-IsEarned conf task (lookup task.task requests)
    choose_submission-IsEarned task none false none =
        score_by_pipeline-IsEarned task (lookup task.task rows.pipelines)

    place-IsEarned :
        (spec : LeaderboardSpec F) (submitted_at : Time) (scored : ScoredTask)
        (board : TaskLeaderboard F) (rank : Option ℤ)
        → IsEarned scored
        → IsEarned (place fl env d user rows group policy spec submitted_at scored board rank)
    unfolding place
    place-IsEarned spec submitted_at scored board none h = h
    place-IsEarned spec submitted_at scored board (some rank) h =
        elim (Bool-cases (scored.status == status_success)) [
          | inl e ↦
              IsEarned-if
                (scored.status == status_success && not (after submitted_at group.deadline))
                (IsEarned-of_solved h.plain ((eq_iff scored.status status_success).0 e))
                (record { plain = h.plain; zero_unless_solved = h.zero_unless_solved })
          | inr e ↦ rw e (record { plain = h.plain; zero_unless_solved = h.zero_unless_solved })
        ]

    add_rank-IsEarned :
        (spec : LeaderboardSpec F) (submitted_at : Time) (scored : ScoredTask)
        (board : Option (TaskLeaderboard F))
        → IsEarned scored
        → IsEarned (add_rank fl env d user rows group policy spec submitted_at scored board)
    unfolding add_rank
    add_rank-IsEarned spec submitted_at scored none h = h
    add_rank-IsEarned spec submitted_at scored (some board) h =
        place-IsEarned spec submitted_at scored board (rank_of board rows.login) h

    add_leaderboard-IsEarned :
        (task : Task F) (spec : Option (LeaderboardSpec F)) (submitted_at : Time)
        (scored : ScoredTask)
        → IsEarned scored
        → IsEarned (add_leaderboard fl env d user rows group policy task spec submitted_at scored)
    unfolding add_leaderboard
    add_leaderboard-IsEarned task none submitted_at scored h = h
    add_leaderboard-IsEarned task (some spec) submitted_at scored h =
        add_rank-IsEarned spec submitted_at _ (lookup task.task rows.boards)
          (record { plain = h.plain; zero_unless_solved = h.zero_unless_solved })

    apply_override-zero :
        (o : Option OverriddenScore) (scored : ScoredTask)
        → IsEarned scored
        → (apply_override fl env d user rows group policy o scored).overridden ≡ false
        → ((apply_override fl env d user rows group policy o scored).status == status_success)
          ≡ false
        → (apply_override fl env d user rows group policy o scored).score ≡ pos 0
    unfolding apply_override
    apply_override-zero none scored h k q = h.zero_unless_solved q
    apply_override-zero (some o) scored h k q = absurd (ground arith)

    -- A task without an overridden score that is not shown as solved scores 0, whatever the
    -- workflow, the flags, the deadlines and the leaderboards.
    pub score_task_zero :
        (task : Task F)
        → (score_task fl env d user rows group policy task).overridden ≡ false
        → ((score_task fl env d user rows group policy task).status == status_success) ≡ false
        → (score_task fl env d user rows group policy task).score ≡ pos 0
    unfolding score_task score_submission
    score_task_zero task = apply_override-zero (lookup (rows.login, task.task) rows.overrides) _ (
        add_leaderboard-IsEarned task task.leaderboard _ _ (
          choose_submission-IsEarned task (lookup task.task rows.flags) task.crashme
            rows.merge_requests))
