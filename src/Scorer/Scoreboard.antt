-- ===== src/Scorer/Scoreboard.antt =====
-- internal/scorer/scorer.go, `CalcScoreboardWithFilter` and `CalcUserScores`: the scores of a group.
pub mod Providers
use notmanytuples.Prelude.{
  String, Bool, true, false, not, Option, none, some, List, [], ◌∷◌, ◌++◌, if◌then◌else◌, string_eq,
}
use notmanytuples.Prelude.Dict.{Dict, lookup}
use notmanytuples.Prelude.Lists.{keep}
use notmanytuples.Prelude.Best.{merge_by}
use notmanytuples.Prelude.Sort.{sort_slice}
use notmanytuples.Prelude.Float.{Float}
use notmanytuples.Prelude.Text.{is_before}
use notmanytuples.Config.{MergeRequestsConfig}
use notmanytuples.Models.{User, Pipeline, Flag, MergeRequest, OverriddenScore, SubmissionBan}
use notmanytuples.Deadlines.{Deadlines}
use notmanytuples.Result.{Result, ok, err, ◌>>=◌}
use notmanytuples.Scorer.Errors.{Error, failed, wrap, deref}
use notmanytuples.Scorer.Environment.{Environment}
use notmanytuples.Scorer.Results.{UserScores, full_name}
use notmanytuples.Scorer.Pipelines.{SubmissionBans, load_submission_bans}
use notmanytuples.Scorer.Leaderboard.{LeaderboardsMap, GroupBenchmark, calc_leaderboards}
use notmanytuples.Scorer.Users.{Provider, calc_user_scores_impl}

-- `prev = append(prev, row)`.
abbrev pub append_row : {A B : Type 0} → (A → B) → Option (List B) → A → List B
append_row value none x = value x ∷ []
append_row value (some xs) x = xs ++ value x ∷ []

-- A provider that reads the rows of a table from a map: a missing key has no rows.
unfoldable pub cached_provider : {A B : Type 0} → (A → String) → (A → B) → List A → Provider B
cached_provider key value rows name = elim (lookup name (merge_by key (append_row value) [] rows)) [
  | none ↦ ok []
  | some xs ↦ ok xs
]

unfoldable pub make_cached_pipelines_provider :
    Result Error (List Pipeline) → Result Error (Provider Pipeline)
unfolding cached_provider
make_cached_pipelines_provider table = do
  pipelines ← table
  ok (cached_provider (λ p. p.project) (λ p. p) pipelines)

-- The flags under their logins; a flag without a login is a nil pointer.
flag_logins : List Flag → Result Error (List (String × Flag))
unfolding deref
flag_logins [] = ok []
flag_logins (f ∷ fs) = do
  login ← deref f.gitlab_login
  rest ← flag_logins fs
  ok ((login, f) ∷ rest)

unfoldable pub make_cached_flags_provider : Result Error (List Flag) → Result Error (Provider Flag)
unfolding cached_provider flag_logins
make_cached_flags_provider table = do
  flags ← table
  keyed ← flag_logins flags
  ok (cached_provider (λ row. row.0) (λ row. row.1) keyed)

unfoldable pub make_cached_merge_requests_provider :
    Option MergeRequestsConfig
    → Result Error (List MergeRequest)
    → Result Error (Option (MergeRequestsConfig × Provider MergeRequest))
unfolding cached_provider
make_cached_merge_requests_provider none table = ok none
make_cached_merge_requests_provider (some conf) table = do
  requests ← table
  ok (some (conf, cached_provider (λ mr. mr.project) (λ mr. mr) requests))

-- The table of merge requests, in the merge request workflow.
project_requests :
    Option MergeRequestsConfig
    → Provider MergeRequest
    → Option (MergeRequestsConfig × Provider MergeRequest)
project_requests none provider = none
project_requests (some conf) provider = some (conf, provider)

-- The database's lists.
pub record Tables (F : Type 0) : Type 0 where
  pub list_group_users : String → Result Error (List User)
  pub list_all_pipelines : Result Error (List Pipeline)
  pub list_project_pipelines : Provider Pipeline
  pub list_submitted_flags : Result Error (List Flag)
  pub list_user_flags : Provider Flag
  pub list_all_merge_requests : Result Error (List MergeRequest)
  pub list_project_merge_requests : Provider MergeRequest
  pub list_overrides : Result Error (List OverriddenScore)
  pub list_user_overrides : Provider OverriddenScore
  pub list_submission_bans : Result Error (List SubmissionBan)
  pub list_group_benchmarks : Provider (GroupBenchmark F)

pub record Standings (F : Type 0) : Type 0 where
  pub deadlines : Deadlines F
  pub users : List (UserScores F)

-- The rows of the other tables, as both functions read them: the bans, then the leaderboards.
module _ {F : Type 0} (fl : Float F) (env : Environment) (tables : Tables F)
    (merge_requests : Option MergeRequestsConfig)
    (group_deadlines : String → Option (Deadlines F)) where
  score_users :
      Deadlines F
      → Provider Pipeline
      → Provider Flag
      → Option (MergeRequestsConfig × Provider MergeRequest)
      → List OverriddenScore
      → LeaderboardsMap F
      → SubmissionBans
      → List User
      → Result Error (List (UserScores F))
  unfolding calc_user_scores_impl
  score_users d pipelines flags requests overrides boards bans [] = ok []
  score_users d pipelines flags requests overrides boards bans (user ∷ users) = do
    scores ← calc_user_scores_impl fl env d user pipelines flags requests overrides boards bans
    rest ← score_users d pipelines flags requests overrides boards bans users
    ok (scores ∷ rest)

  -- The order of the standings: the mark, then the name.
  unfoldable pub scores_less : UserScores F → UserScores F → Bool
  unfolding full_name
  scores_less a b =
      if not (fl.eq a.final_mark b.final_mark)
      then fl.lt b.final_mark a.final_mark
      else is_before (full_name a.user) (full_name b.user)

  -- `filter` is nil, or it keeps the users that pass.
  keep_users : Option (User → Bool) → List User → List User
  keep_users none users = users
  keep_users (some filter) users = keep filter users

  unfoldable pub calc_scoreboard_with_filter :
      String → Option (User → Bool) → Result Error (Standings F)
  unfolding make_cached_pipelines_provider make_cached_flags_provider
      make_cached_merge_requests_provider load_submission_bans calc_leaderboards score_users
      scores_less keep_users
  calc_scoreboard_with_filter group_name filter = elim (group_deadlines group_name) [
    | none ↦ err (failed "no deadlines found")
    | some d ↦ do
      users ← tables.list_group_users group_name
      pipelines ← make_cached_pipelines_provider tables.list_all_pipelines
      flags ← make_cached_flags_provider tables.list_submitted_flags
      requests ← make_cached_merge_requests_provider merge_requests tables.list_all_merge_requests
      overrides ← wrap "failed to list all overrides" tables.list_overrides
      bans ←
          wrap "failed to list submission bans" (load_submission_bans tables.list_submission_bans)
      boards ←
          wrap "failed to calc leaderboards"
            (calc_leaderboards fl tables.list_group_benchmarks d group_name)
      scores ←
          score_users d pipelines flags requests overrides boards bans (keep_users filter users)
      ok (record { deadlines = d; users = sort_slice scores_less scores })
  ]

  unfoldable pub calc_scoreboard : String → Result Error (Standings F)
  unfolding calc_scoreboard_with_filter
  calc_scoreboard group_name = calc_scoreboard_with_filter group_name none

  unfoldable pub calc_user_scores : User → Result Error (UserScores F)
  unfolding load_submission_bans calc_leaderboards calc_user_scores_impl project_requests
  calc_user_scores user = elim (group_deadlines user.group_name) [
    | none ↦ err (failed "no deadlines found")
    | some d ↦ do
      login ← deref user.gitlab_login
      overrides ← wrap "failed to list user overrides" (tables.list_user_overrides login)
      bans ←
          wrap "failed to list submission bans" (load_submission_bans tables.list_submission_bans)
      boards ←
          wrap "failed to calc leaderboards"
            (calc_leaderboards fl tables.list_group_benchmarks d user.group_name)
      calc_user_scores_impl fl env d user tables.list_project_pipelines tables.list_user_flags
          (project_requests merge_requests tables.list_project_merge_requests) overrides boards bans
  ]
