-- ===== src/Scorer/Users.antt =====
-- internal/scorer/scorer.go, `calcUserScoresImpl`: the loop over the groups, and the whole function.
pub mod Totals
use notmanytuples.Prelude.{
  String, Bool, true, false, Option, none, some, List, [], ◌∷◌, ◌++◌, if◌then◌else◌,
}
use notmanytuples.Prelude.Int.{ℤ, pos, int_lt, ◌+int◌}
use notmanytuples.Prelude.Float.{Float}
use notmanytuples.Config.{MergeRequestsConfig}
use notmanytuples.Models.{User, Pipeline, Flag, MergeRequest, OverriddenScore, get_project_name}
use notmanytuples.Deadlines.{
  ScoringGroup, TaskGroup, Deadlines, get_scoring_group, get_scoring_policy,
}
use notmanytuples.Result.{Result, ok, err, ◌>>=◌}
use notmanytuples.Scorer.Errors.{Error, deref}
use notmanytuples.Scorer.Environment.{Environment}
use notmanytuples.Scorer.Titles.{prettify_title}
use notmanytuples.Scorer.Results.{ScoredTask, ScoredTaskGroup, ScoredUser, UserScores}
use notmanytuples.Scorer.Pipelines.{SubmissionBans, load_user_pipelines, load_user_flags}
use notmanytuples.Scorer.MergeRequests.{MergeRequestInfo, load_user_merge_requests}
use notmanytuples.Scorer.Leaderboard.{LeaderboardsMap}
use notmanytuples.Scorer.Scores.{
  UserRows, parse_overrides, score_tasks, total_score, total_max_score,
}

-- A function that lists the rows of a project or of a login.
abbrev pub Provider : Type 0 → Type 0
Provider A = String → Result Error (List A)

module _ {F : Type 0} (fl : Float F) (env : Environment) where
  unfoldable pub score_group : Deadlines F → User → UserRows F → TaskGroup F → ScoredTaskGroup
  unfolding score_tasks total_score total_max_score prettify_title
  score_group d user rows group =
      let tasks = score_tasks fl env d user rows group (get_scoring_policy d group) group.tasks in
      record {
        title = group.title;
        pretty_title = prettify_title env.title_case group.title;
        deadline = group.deadline;
        tasks = tasks;
        score = total_score (pos 0) tasks;
        max_score = total_max_score (pos 0) tasks;
      }

  -- What a group adds to the final mark.
  unfoldable pub add_mark : F → Option (ScoringGroup F) → ℤ → F
  add_mark mark none score = mark
  add_mark mark (some g) score =
      if int_lt (pos 0) g.max_score
      then fl.add mark (fl.div (fl.mul g.weight (fl.of_int score)) (fl.of_int g.max_score))
      else mark

  score_groups : Deadlines F → User → UserRows F → UserScores F → List (TaskGroup F) → UserScores F
  unfolding score_group add_mark
  score_groups d user rows scores [] = scores
  score_groups d user rows scores (group ∷ groups) =
      let scored = score_group d user rows group in
      score_groups d user rows
        (record scores {
          groups = scores.groups ++ scored ∷ [];
          score = scores.score +int scored.score;
          max_score = scores.max_score +int scored.max_score;
          final_mark = add_mark scores.final_mark (get_scoring_group d group) scored.score;
        })
        groups

  unfoldable pub no_scores : User → String → UserScores F
  no_scores user login = record {
    groups = [];
    score = pos 0;
    max_score = pos 0;
    final_mark = fl.of_int (pos 0);
    user = record {
      first_name = user.first_name;
      last_name = user.last_name;
      email = user.email;
      group = user.group_name;
      subgroup = user.subgroup_name;
      gitlab_login = login;
      gitlab_project = get_project_name user;
    };
  }

  -- The requests by task, in the merge request workflow.
  load_requests :
      User
      → SubmissionBans
      → Option (MergeRequestsConfig × Provider MergeRequest)
      → Result Error (Option (MergeRequestsConfig × List (String × MergeRequestInfo)))
  unfolding load_user_merge_requests
  load_requests user bans none = ok none
  load_requests user bans (some (conf, provider)) = do
    requests ← load_user_merge_requests user provider bans
    ok (some (conf, requests))

  unfoldable pub load_rows :
      User
      → Provider Pipeline
      → Provider Flag
      → Option (MergeRequestsConfig × Provider MergeRequest)
      → List OverriddenScore
      → LeaderboardsMap F
      → SubmissionBans
      → Result Error (UserRows F)
  unfolding load_user_pipelines load_user_flags load_requests parse_overrides deref
  load_rows user pipelines_p flags_p requests_p raw_overrides boards bans = do
    pipelines ← load_user_pipelines user pipelines_p bans
    flags ← load_user_flags user flags_p
    requests ← load_requests user bans requests_p
    login ← deref user.gitlab_login
    ok (record {
      login = login;
      pipelines = pipelines;
      flags = flags;
      merge_requests = requests;
      overrides = parse_overrides raw_overrides;
      boards = boards;
    })

  unfoldable pub calc_user_scores_impl :
      Deadlines F
      → User
      → Provider Pipeline
      → Provider Flag
      → Option (MergeRequestsConfig × Provider MergeRequest)
      → List OverriddenScore
      → LeaderboardsMap F
      → SubmissionBans
      → Result Error (UserScores F)
  unfolding load_rows score_groups no_scores
  calc_user_scores_impl d user pipelines_p flags_p requests_p raw_overrides boards bans = do
    rows ← load_rows user pipelines_p flags_p requests_p raw_overrides boards bans
    ok (score_groups d user rows (no_scores user rows.login) d.assignments)
