-- ===== src/Web/Api.antt =====
-- internal/web/api.go: the handlers of the API other than moderation.
pub mod Tokens
pub mod Justified
use notmanytuples.Prelude.{
  ℕ, String, Bool, true, false, not, ◌&&◌, ◌||◌, Option, none, some, List, [], ◌∷◌, if◌then◌else◌,
  ◌==◌, string_eq,
}
use notmanytuples.Prelude.Int.{ℤ, pos, int_eq}
use notmanytuples.Prelude.Lists.{any_of}
use notmanytuples.Prelude.Float.{Float}
use notmanytuples.Prelude.Text.{◌<>◌}
use notmanytuples.Config.{GroupConfig, find_default_group}
use notmanytuples.Models.{User, Flag, get_project_name, pipeline_status_success}
use notmanytuples.Deadlines.{Deadlines, Task, find_task}
use notmanytuples.Deadlines.Fetcher.{Fetcher, group_deadlines, any_group_has_task}
use notmanytuples.Result.{Result, ok, err, ◌>>=◌, and_then}

pub record ReportRequest : Type 0 where
  pub token : String
  pub task : String
  pub user_id : String
  pub pipeline_id : String
  pub project_name : String
  pub failed : ℤ
  pub status : String
  pub metric : String

pub record FlagRequest : Type 0 where
  pub token : String
  pub task : String

pub record OverrideRequest : Type 0 where
  pub task : String
  pub login : String
  pub score : ℤ
  pub status : String

pub record ChangeGroupRequest : Type 0 where
  pub token : String
  pub login : String
  pub group_name : String

pub record BenchmarkResult (F : Type 0) : Type 0 where
  pub gitlab_login : String
  pub task : String
  pub pipeline_id : ℤ
  pub metric : F

-- The code and the error of an answer that is not 200.
pub record Refusal : Type 0 where
  pub code : ℕ
  pub error : String

abbrev pub refuse : {A : Type 0} → ℕ → String → Result Refusal A
refuse code error = err (record { code = code; error = error })

-- A call of the database, its error answered with 500.
abbrev pub internal : {S A : Type 0} → S × Result String A → S × Result Refusal A
internal (s, ok a) = (s, ok a)
internal (s, err e) = (s, refuse 500 e)

-- A call that changes nothing, its error answered with a code and a message.
abbrev pub found : {A : Type 0} → ℕ → (String → String) → Result String A → Result Refusal A
found code message (ok a) = ok a
found code message (err e) = refuse code (message e)

-- The tables with their state, and the queue of fresh pipelines.
pub record Tables (F S : Type 0) : Type 0 where
  pub find_user_by_gitlab_id : S → ℤ → Result String User
  pub find_user_by_gitlab_login : S → String → Result String User
  pub list_group_users : S → String → Result String (List User)
  pub add_benchmark_result : S → BenchmarkResult F → S × Result String (Unit {0})
  pub create_flag : S → String → S × Result String Flag
  pub add_override : S → String → String → ℤ → String → S × Result String (Unit {0})
  pub set_user_group_name : S → User → S × Result String (Unit {0})
  pub add_fresh : S → ℤ → String → S × Result String (Unit {0})

-- The settings, the snapshot of the deadlines, and the package strconv
-- with the decimal text of a number.
pub record Settings (F : Type 0) : Type 0 where
  pub tokens : List String
  pub groups : List GroupConfig
  pub deadlines : Fetcher F
  pub float : Float F
  pub atoi : String → Result String ℤ
  pub parse_float : String → Result String F
  pub show : ℤ → String

module _ {F : Type 0} (settings : Settings F) where
  unfoldable pub is_token_valid : String → Bool
  is_token_valid token = any_of (λ known. token == known) settings.tokens

  unfoldable pub parse_benchmark_metric : String → Result String F
  parse_benchmark_metric raw = settings.parse_float raw >>= λ metric.
      if settings.float.is_nan metric || settings.float.is_inf metric
      then err "metric must be finite"
      else ok metric

  -- The middleware in front of a handler.
  unfoldable pub validate_token :
      {S A : Type 0} → String → (S → S × Result Refusal A) → S → S × Result Refusal A
  unfolding is_token_valid
  validate_token token handler s =
      if not (is_token_valid token) then (s, refuse 401 "Invalid or expired token") else handler s

  -- Whether the deadlines have a leaderboard for the task.
  unfoldable pub has_leaderboard : Deadlines F → String → Bool
  unfolding find_task
  has_leaderboard d task = elim (find_task d task) [
    | none ↦ false
    | some (t, group) ↦ elim t.leaderboard [ none ↦ false | some _ ↦ true ]
  ]

module _ {F S : Type 0} (settings : Settings F) (tables : Tables F S) where
  check_owner : ReportRequest → User → F → ℤ → ℤ → Result Refusal (BenchmarkResult F)
  unfolding has_leaderboard group_deadlines get_project_name
  check_owner req user metric id user_id = elim user.gitlab_login [
    | none ↦ refuse 404 ("unknown user " <> settings.show user_id)
    | some login ↦
        if get_project_name user == "" || not (get_project_name user == req.project_name)
        then refuse 400
            ("project " <> req.project_name <> " does not belong to user " <> settings.show user_id)
        else elim (group_deadlines settings.deadlines user.group_name) [
          | none ↦ refuse 400 ("no deadlines found for group " <> user.group_name)
          | some d ↦
              if not (has_leaderboard settings d req.task)
              then refuse 400
                  ("task " <> req.task <> " has no leaderboard for group " <> user.group_name)
              else ok (record {
                gitlab_login = login;
                task = req.task;
                pipeline_id = id;
                metric = metric;
              })
        ]
  ]

  -- The checks in front of the row, which read the users.
  check_benchmark : S → ReportRequest → ℤ → ℤ → Result Refusal (BenchmarkResult F)
  unfolding parse_benchmark_metric check_owner
  check_benchmark s req id user_id =
      found 400 (λ e. "failed to parse metric: " <> e) (parse_benchmark_metric settings req.metric)
      >>= λ metric.
          if not (int_eq req.failed (pos 0))
            || not (req.status == "") && not (req.status == pipeline_status_success)
          then refuse 400 "metric is only accepted for successful reports"
          else found 404 (λ _. "unknown user " <> settings.show user_id)
              (tables.find_user_by_gitlab_id s user_id)
            >>= λ user. check_owner req user metric id user_id

  store_benchmark : S → ReportRequest → ℤ → ℤ → S × Result Refusal (Unit {0})
  unfolding check_benchmark
  store_benchmark s req id user_id =
      if req.metric == "" then (s, ok tt) else elim (check_benchmark s req id user_id) [
        | err refusal ↦ (s, err refusal)
        | ok result ↦ internal (tables.add_benchmark_result s result)
      ]

  report_valid : S → ReportRequest → ℤ → ℤ → S × Result Refusal (Unit {0})
  unfolding store_benchmark
  report_valid s req id user_id =
      and_then (store_benchmark s req id user_id)
        (λ t _. internal (tables.add_fresh t id req.project_name))

  -- A body that does not parse is the error of `Bind`.
  unfoldable pub report : S → Result String ReportRequest → S × Result Refusal (Unit {0})
  unfolding report_valid is_token_valid
  report s (err e) = (s, refuse 400 ("failed to parse request body: " <> e))
  report s (ok req) = elim (settings.atoi req.pipeline_id) [
    | err e ↦ (s, refuse 400 ("failed to parse pipeline_id: " <> e))
    | ok id ↦ elim (settings.atoi req.user_id) [
      | err e ↦ (s, refuse 400 ("failed to parse user_id: " <> e))
      | ok user_id ↦
          if not (is_token_valid settings req.token)
          then (s, refuse 401 "invalid or expired token")
          else report_valid s req id user_id
    ]
  ]

  unfoldable pub create_flag : S → Result String FlagRequest → S × Result Refusal Flag
  unfolding is_token_valid any_group_has_task
  create_flag s (err e) = (s, refuse 400 ("failed to parse request body: " <> e))
  create_flag s (ok req) =
      if not (is_token_valid settings req.token)
      then (s, refuse 401 "invalid or expired token")
      else if not (any_group_has_task settings.deadlines req.task)
      then (s, refuse 400 ("unknown task " <> req.task))
      else internal (tables.create_flag s req.task)

  -- Behind `validate_token`.
  unfoldable pub override : Result String OverrideRequest → S → S × Result Refusal (Unit {0})
  unfolding any_group_has_task
  override (err e) s = (s, refuse 400 ("failed to parse request body: " <> e))
  override (ok req) s = elim (tables.find_user_by_gitlab_login s req.login) [
    | err e ↦ (s, refuse 404 "not found user")
    | ok user ↦
        if not (any_group_has_task settings.deadlines req.task)
        then (s, refuse 400 ("unknown task " <> req.task))
        else internal (tables.add_override s req.login req.task req.score req.status)
  ]

  change_user_group : S → String → User → S × Result Refusal (Unit {0})
  change_user_group s name user =
      if not (any_of (λ (g : GroupConfig). g.name == name) settings.groups)
      then (s, refuse 404 "not found group")
      else internal (tables.set_user_group_name s (record user { group_name = name }))

  unfoldable pub change_group : S → Result String ChangeGroupRequest → S × Result Refusal (Unit {0})
  unfolding is_token_valid change_user_group
  change_group s (err e) = (s, refuse 400 ("failed to parse request body: " <> e))
  change_group s (ok req) =
      if not (is_token_valid settings req.token)
      then (s, refuse 401 "invalid or expired token")
      else elim (tables.find_user_by_gitlab_login s req.login) [
        | err e ↦ (s, refuse 404 "not found user")
        | ok user ↦ change_user_group s req.group_name user
      ]

  unfoldable pub list_group_members : S → String → Result Refusal (List User)
  list_group_members s group = elim (tables.list_group_users s group) [
    | err e ↦ refuse 404 e
    | ok users ↦ ok users
  ]

  -- The handlers that answer with scores, which the scorer computes.
  module _ {T : Type 0} where
    unfoldable pub user_scores :
        (User → Result String T) → S → Result String String → Result Refusal T
    user_scores calc_user_scores s (err e) = refuse 400 ("failed to parse request: " <> e)
    user_scores calc_user_scores s (ok login) = elim (tables.find_user_by_gitlab_login s login) [
      | err e ↦ refuse 404 "not found user"
      | ok user ↦ found 500 (λ _. "failed to calc scores") (calc_user_scores user)
    ]

    -- No configured group at all is a nil pointer, which the framework answers with 500.
    unfoldable pub standings : (String → Result String T) → String → Result Refusal T
    unfolding find_default_group
    standings calc_scoreboard query =
        if not (query == "")
        then found 500 (λ e. "failed to list scores: " <> e) (calc_scoreboard query)
        else elim (find_default_group settings.groups) [
          | none ↦ refuse 500 "nil pointer"
          | some group ↦
              found 500 (λ e. "failed to list scores: " <> e) (calc_scoreboard group.name)
        ]
