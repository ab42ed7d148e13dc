-- ===== src/Tests/Api.antt =====
-- The handlers of the API on tables of benchmark rows and queued pipelines.
use notmanytuples.Prelude.{ℕ, String, ◌≡◌, refl, false, some, List, [], ◌∷◌, string_eq}
use notmanytuples.Prelude.Int.{ℤ, pos}
use notmanytuples.Prelude.Text.{path_base}
use notmanytuples.Prelude.Dict.{lookup}
use notmanytuples.Result.{Result, ok, err}
use notmanytuples.Web.Api.{
  ReportRequest, BenchmarkResult, Refusal, Settings, Tables, is_token_valid, validate_token, report,
  create_flag, change_group,
}
use notmanytuples.Web.Api.Tokens.{IsRefused, tokens_guard}
use notmanytuples.Web.Api.Justified.{IsOutcome, report_justified}
use notmanytuples.Tests.Data.{nat_float, ann, course}

abbrev Rows : Type 0
Rows = List (BenchmarkResult ℕ) × List ℤ

abbrev tables : Tables ℕ Rows
tables = record {
  find_user_by_gitlab_id = λ s id. ok ann;
  find_user_by_gitlab_login = λ s login. ok ann;
  list_group_users = λ s group. ok (ann ∷ []);
  add_benchmark_result = λ (rows, queue) row. ((row ∷ rows, queue), ok tt);
  create_flag = λ s task. (s, err "full");
  add_override = λ s login task score status. (s, ok tt);
  set_user_group_name = λ s user. (s, ok tt);
  add_fresh = λ (rows, queue) id project. ((rows, id ∷ queue), ok tt);
}

abbrev settings : Settings ℕ
settings = record {
  tokens = "secret" ∷ [];
  groups = [];
  deadlines = record { current = some (("hse", course) ∷ []) };
  float = nat_float;
  atoi = λ text. ok (pos 7);
  parse_float = λ text. ok 12;
  show = λ n. "7";
}

abbrev race_report : ReportRequest
race_report = record {
  token = "secret";
  task = "race";
  user_id = "7";
  pipeline_id = "7";
  project_name = "hse-ann";
  failed = pos 0;
  status = "success";
  metric = "12";
}

race_stored : report settings tables ([], []) (ok race_report) ≡ (
  (
    record { gitlab_login = "ann"; task = "race"; pipeline_id = pos 7; metric = 12 } ∷ [],
    pos 7 ∷ [],
  ),
  ok tt,
)
unfolding report path_base lookup
race_stored = refl

report_justified_example :
    IsOutcome settings tables
      ([], [])
      race_report
      (report settings tables ([], []) (ok race_report)).0
report_justified_example = report_justified settings tables ([], []) race_report

unknown_token : is_token_valid settings "guess" ≡ false
unfolding is_token_valid
unknown_token = refl

tokens_guard_example :
    ((req : ReportRequest)
      → req.token ≡ "guess"
      → IsRefused ([], []) (report settings tables ([], []) (ok req)))
    × ((task : String)
        → IsRefused
            ([], [])
            (create_flag settings tables ([], []) (ok (record { token = "guess"; task = task }))))
    × ((login group_name : String)
        → IsRefused
            ([], [])
            (change_group settings tables
              ([], [])
              (ok (record { token = "guess"; login = login; group_name = group_name }))))
    × ((A : Type 0) (handler : Rows → Rows × Result Refusal A)
        → IsRefused ([], []) (validate_token settings "guess" handler ([], [])))
tokens_guard_example = tokens_guard settings tables ([], []) "guess" unknown_token
