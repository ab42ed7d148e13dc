-- ===== src/Scorer/Scores.antt =====
-- internal/scorer/scorer.go, `calcUserScoresImpl`: the scores of one user.
pub mod Zero
use notmanytuples.Prelude.{
  ℕ, suc, String, Bool, true, false, not, ◌&&◌, Option, none, some, List, [], ◌∷◌, ◌++◌,
  if◌then◌else◌, ◌==◌, string_eq, string_pair_eq,
}
use notmanytuples.Prelude.Int.{ℤ, pos, int_lt, ◌+int◌}
use notmanytuples.Prelude.Lists.{length}
use notmanytuples.Prelude.Dict.{Dict, lookup, insert}
use notmanytuples.Prelude.Time.{Time, after, zero_time}
use notmanytuples.Prelude.Float.{Float}
use notmanytuples.Prelude.Text.{◌<>◌, path_base}
use notmanytuples.Config.{MergeRequestsConfig}
use notmanytuples.Models.{
  User, Pipeline, Flag, MergeRequest, OverriddenScore, get_project_name, pipeline_status_success,
}
use notmanytuples.Deadlines.{
  ScoringPolicy, ScoringGroup, LeaderboardSpec, Task, TaskGroup, Deadlines, get_scoring_group,
  get_scoring_policy,
}
use notmanytuples.Result.{Result, ok, err, ◌>>=◌}
use notmanytuples.Scorer.Errors.{Error, deref}
use notmanytuples.Scorer.Environment.{Environment}
use notmanytuples.Scorer.Results.{
  ScoredTask, ScoredTaskGroup, ScoredUser, UserScores, shown_pipeline_status, status_assigned,
  status_success,
}
use notmanytuples.Scorer.Pipelines.{SubmissionBans, load_user_pipelines, load_user_flags}
use notmanytuples.Scorer.MergeRequests.{MergeRequestInfo, load_user_merge_requests}
use notmanytuples.Scorer.Leaderboard.{TaskLeaderboard, LeaderboardsMap, rank_of, leaderboard_score}
use notmanytuples.Scorer.Scoring.{score_pipeline, score_merge_request}

-- `overrideKey` is a login and a task.
abbrev pub Overrides : Type 0
Overrides = Dict (String × String) OverriddenScore

index_overrides : Overrides → List OverriddenScore → Overrides
index_overrides m [] = m
index_overrides m (o ∷ os) = index_overrides (insert (o.gitlab_login, o.task) o m) os

unfoldable pub parse_overrides : List OverriddenScore → Overrides
unfolding index_overrides
parse_overrides = index_overrides []

unfoldable pub make_leaderboard_url : Environment → String → String → String
make_leaderboard_url env task group = "/leaderboard/" <> task <> "?group=" <> env.query_escape group

-- What the loop over the tasks reads: the user's rows by task, and the boards. The requests come
-- with the settings of their workflow; in the pipeline workflow there are none.
pub record UserRows (F : Type 0) : Type 0 where
  pub login : String
  pub pipelines : Dict String Pipeline
  pub flags : Dict String Flag
  pub merge_requests : Option (MergeRequestsConfig × Dict String MergeRequestInfo)
  pub overrides : Overrides
  pub boards : LeaderboardsMap F

-- `totalScore += tasks[i].Score` and `maxTotalScore += tasks[i].MaxScore`.
unfoldable pub total_score : ℤ → List ScoredTask → ℤ
total_score total [] = total
total_score total (t ∷ ts) = total_score (total +int t.score) ts

unfoldable pub total_max_score : ℤ → List ScoredTask → ℤ
total_max_score total [] = total
total_max_score total (t ∷ ts) = total_max_score (total +int t.max_score) ts

module _ {F : Type 0} (fl : Float F) (env : Environment) (d : Deadlines F) (user : User) where
  module _ (rows : UserRows F) (group : TaskGroup F) (policy : Option (ScoringPolicy F)) where
    unfoldable pub unscored : Task F → ScoredTask
    unscored task = record {
      task = task.task;
      short_name = path_base task.task;
      status = status_assigned;
      score = pos 0;
      max_score = task.score;
      overridden = false;
      message = "";
      has_review = false;
      task_url = env.projects.make_task_url task.task;
      pipeline_url = "";
      branch_url = "";
      rank = pos 0;
      leaderboard_url = "";
    }

    -- A task without a flag in the pipeline workflow.
    score_by_pipeline : Task F → Option Pipeline → ScoredTask × Time
    unfolding unscored
    score_by_pipeline task none = (unscored task, zero_time)
    score_by_pipeline task (some p) = (
      record (unscored task) {
        status = shown_pipeline_status p.status;
        score = score_pipeline fl policy d user task group p.status p.started_at;
        pipeline_url = env.projects.make_pipeline_url user p;
        branch_url = env.projects.make_branch_url user p;
      },
      p.started_at,
    )

    -- A task without a flag in the merge request workflow.
    score_by_request : MergeRequestsConfig → Task F → Option MergeRequestInfo → ScoredTask × Time
    unfolding unscored
    score_by_request conf task none = (unscored task, zero_time)
    score_by_request conf task (some info) = (
      score_merge_request fl env conf (unscored task) policy d user task group info,
      info.merge_request.last_pipeline_created_at,
    )

    -- The scored submission and the time at which it was made: a flag first, nothing else for a
    -- task that takes flags only, then the workflow.
    choose_submission :
        Task F
        → Option Flag
        → Bool
        → Option (MergeRequestsConfig × Dict String MergeRequestInfo)
        → ScoredTask × Time
    unfolding unscored
    choose_submission task (some flag) crashme requests = (
      record (unscored task) {
        status = status_success;
        score = score_pipeline fl policy d user task group pipeline_status_success flag.created_at;
      },
      flag.created_at,
    )
    choose_submission task none true requests = (unscored task, zero_time)
    choose_submission task none false (some (conf, requests)) =
        score_by_request conf task (lookup task.task requests)
    choose_submission task none false none =
        score_by_pipeline task (lookup task.task rows.pipelines)

    unfoldable pub score_submission : Task F → ScoredTask × Time
    unfolding choose_submission score_by_pipeline score_by_request
    score_submission task =
        choose_submission task (lookup task.task rows.flags) task.crashme rows.merge_requests

    -- The rank, and the score it earns to a submission in time.
    place : LeaderboardSpec F → Time → ScoredTask → TaskLeaderboard F → Option ℤ → ScoredTask
    place spec submitted_at scored board none = scored
    place spec submitted_at scored board (some rank) =
        let ranked = record scored { rank = rank } in
        if scored.status == status_success && not (after submitted_at group.deadline)
        then record ranked {
          score = leaderboard_score fl scored.score spec.bonus rank (pos (length board.entries));
        }
        else ranked

    add_rank : LeaderboardSpec F → Time → ScoredTask → Option (TaskLeaderboard F) → ScoredTask
    unfolding place
    add_rank spec submitted_at scored none = scored
    add_rank spec submitted_at scored (some board) =
        place spec submitted_at scored board (rank_of board rows.login)

    unfoldable pub add_leaderboard :
        Task F → Option (LeaderboardSpec F) → Time → ScoredTask → ScoredTask
    unfolding add_rank make_leaderboard_url
    add_leaderboard task none submitted_at scored = scored
    add_leaderboard task (some spec) submitted_at scored =
        add_rank spec submitted_at
          (record scored { leaderboard_url = make_leaderboard_url env task.task user.group_name })
          (lookup task.task rows.boards)

    unfoldable pub apply_override : Option OverriddenScore → ScoredTask → ScoredTask
    apply_override none scored = scored
    apply_override (some o) scored = record scored {
      score = o.score;
      status = shown_pipeline_status o.status;
      overridden = true;
    }

    -- One round of the loop over the tasks of a group.
    unfoldable pub score_task : Task F → ScoredTask
    unfolding score_submission add_leaderboard apply_override
    score_task task =
        let (submitted, submitted_at) = score_submission task in
        apply_override (lookup (rows.login, task.task) rows.overrides)
          (add_leaderboard task task.leaderboard submitted_at submitted)

    unfoldable pub score_tasks : List (Task F) → List ScoredTask
    unfolding score_task
    score_tasks [] = []
    score_tasks (t ∷ ts) = score_task t ∷ score_tasks ts
