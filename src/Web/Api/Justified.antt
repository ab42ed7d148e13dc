-- ===== src/Web/Api/Justified.antt =====
-- What a report of the grader may change.
use notmanytuples.Prelude.{
  ◌≡◌, ◌≢◌, refl, sym, ap, ◌∙◌, inl, inr, String, true, false, not, ◌||◌, ◌&&◌, some, ◌==◌,
  string_eq, Bool-cases, Option-cases, arith, eq_iff,
}
use mathlib.Core.Path.{subst}
use notmanytuples.Prelude.Int.{ℤ, pos, int_eq, int_eq_iff}
use notmanytuples.Result.{Result, ok, err, and_then, Result-cases}
use notmanytuples.Models.{User, get_project_name, pipeline_status_success}
use notmanytuples.Deadlines.{Deadlines}
use notmanytuples.Deadlines.Fetcher.{group_deadlines}
use notmanytuples.Web.Api.{
  ReportRequest, BenchmarkResult, Settings, Tables, is_token_valid, internal, found,
  has_leaderboard, parse_benchmark_metric, check_owner, check_benchmark, store_benchmark,
  report_valid, report,
}

module _ {F S : Type 0} (settings : Settings F) (tables : Tables F S) where
  -- A row that the report may store: a finite metric of a passed pipeline in the user's own project,
  -- for a task that has a leaderboard in the deadlines of the user's group.
  pub record IsAdmissible (s : S) (req : ReportRequest) (result : BenchmarkResult F) : Type 0 where
    pub user_id : ℤ
    pub user : User
    pub deadlines : Deadlines F
    pub parsed_user : settings.atoi req.user_id ≡ ok user_id
    pub known : tables.find_user_by_gitlab_id s user_id ≡ ok user
    pub own_login : user.gitlab_login ≡ some result.gitlab_login
    pub own_project : get_project_name user ≡ req.project_name
    pub has_project : get_project_name user ≢ ""
    pub same_task : result.task ≡ req.task
    pub of_group : group_deadlines settings.deadlines user.group_name ≡ some deadlines
    pub on_board : has_leaderboard settings deadlines req.task ≡ true
    pub not_nan : settings.float.is_nan result.metric ≡ false
    pub not_inf : settings.float.is_inf result.metric ≡ false
    pub parsed : settings.parse_float req.metric ≡ ok result.metric
    pub none_failed : req.failed ≡ pos 0

  check_owner-IsAdmissible :
      (s : S) (req : ReportRequest) (user : User) (metric : F) (id user_id : ℤ)
      (result : BenchmarkResult F)
      → settings.atoi req.user_id ≡ ok user_id
      → tables.find_user_by_gitlab_id s user_id ≡ ok user
      → settings.parse_float req.metric ≡ ok metric
      → settings.float.is_nan metric ≡ false
      → settings.float.is_inf metric ≡ false
      → req.failed ≡ pos 0
      → check_owner settings tables req user metric id user_id ≡ ok result
      → IsAdmissible s req result × (result.pipeline_id ≡ id)
  unfolding check_owner
  check_owner-IsAdmissible s req user metric id user_id result parsed_user known parsed not_nan
        not_inf passed h =
      elim (Option-cases user.gitlab_login) [
        | inl missing ↦ absurd (ground (arith, missing))
        | inr (login, own) ↦
            elim (Bool-cases
              (get_project_name user == "" || not (get_project_name user == req.project_name))) [
                | inl foreign ↦ absurd (ground (arith, own, foreign))
                | inr his ↦
                    elim (Option-cases (group_deadlines settings.deadlines user.group_name)) [
                      | inl missing ↦ absurd (ground (arith, own, his, missing))
                      | inr (d, of_group) ↦
                          elim (Bool-cases (has_leaderboard settings d req.task)) [
                            | inr missing ↦ absurd (ground (arith, own, his, of_group, missing))
                            | inl board ↦
                                let row : BenchmarkResult F = record {
                                  gitlab_login = login;
                                  task = req.task;
                                  pipeline_id = id;
                                  metric = metric;
                                } in
                                let step : check_owner settings tables req user metric id user_id
                                    ≡ ok row =
                                  rw (check_owner, own, his, of_group, board) refl in
                                let same : row ≡ result =
                                  ap (λ x. elim x [ ok y ↦ y | err _ ↦ row ]) (sym step ∙ h) in
                                subst
                                  (λ (x : BenchmarkResult F).
                                    IsAdmissible s req x × (x.pipeline_id ≡ id))
                                  same
                                  (
                                    record {
                                      user_id = user_id;
                                      user = user;
                                      deadlines = d;
                                      parsed_user = parsed_user;
                                      known = known;
                                      own_login = own;
                                      own_project =
                                          ground (
                                            arith,
                                            eq_iff (get_project_name user) req.project_name,
                                          );
                                      has_project = λ e.
                                          absurd
                                            (ground (arith, eq_iff (get_project_name user) ""));
                                      same_task = refl;
                                      of_group = of_group;
                                      on_board = board;
                                      not_nan = not_nan;
                                      not_inf = not_inf;
                                      parsed = parsed;
                                      none_failed = passed;
                                    },
                                    refl,
                                  )
                          ]
                    ]
              ]
      ]

  parse_benchmark_metric-finite :
      (raw : String) (metric : F)
      → parse_benchmark_metric settings raw ≡ ok metric
      → (settings.parse_float raw ≡ ok metric)
        × (settings.float.is_nan metric ≡ false)
        × (settings.float.is_inf metric ≡ false)
  unfolding parse_benchmark_metric
  parse_benchmark_metric-finite raw metric h = elim (Result-cases (settings.parse_float raw)) [
    | inr (e, bad) ↦ absurd (ground (arith, bad))
    | inl (parsed, good) ↦
        elim (Bool-cases (settings.float.is_nan parsed || settings.float.is_inf parsed)) [
          | inl strange ↦ absurd (ground (arith, good, strange))
          | inr finite ↦
              let step : parse_benchmark_metric settings raw ≡ ok parsed =
                rw (parse_benchmark_metric, good, finite) refl in
              let same : parsed ≡ metric =
                ap (λ x. elim x [ ok y ↦ y | err _ ↦ parsed ]) (sym step ∙ h) in
              subst
                (λ x.
                  (settings.parse_float raw ≡ ok x)
                  × (settings.float.is_nan x ≡ false)
                  × (settings.float.is_inf x ≡ false))
                same (good, ground arith, ground arith)
        ]
  ]

  found-eq-ok :
      {A : Type 0} (code : _) (message : String → String) (r : Result String A) (a : A)
      → found code message r ≡ ok a
      → r ≡ ok a
  found-eq-ok code message (ok b) a h = ap (λ x. elim x [ ok y ↦ ok y | err _ ↦ ok b ]) h
  found-eq-ok code message (err e) a h = absurd (ground arith)

  check_benchmark-IsAdmissible :
      (s : S) (req : ReportRequest) (id user_id : ℤ) (result : BenchmarkResult F)
      → settings.atoi req.user_id ≡ ok user_id
      → check_benchmark settings tables s req id user_id ≡ ok result
      → IsAdmissible s req result × (result.pipeline_id ≡ id)
  unfolding check_benchmark
  check_benchmark-IsAdmissible s req id user_id result parsed_user h =
      elim (Result-cases (parse_benchmark_metric settings req.metric)) [
        | inr (e, bad) ↦ absurd (ground (arith, bad))
        | inl (metric, good) ↦
            let (parsed, not_nan, not_inf) = parse_benchmark_metric-finite req.metric metric good in
            elim (Bool-cases (
              not (int_eq req.failed (pos 0))
              || not (req.status == "") && not (req.status == pipeline_status_success))) [
                | inl bad ↦ absurd (ground (arith, good, bad))
                | inr passed ↦ elim (Result-cases (tables.find_user_by_gitlab_id s user_id)) [
                  | inr (e, bad) ↦ absurd (ground (arith, good, passed, bad))
                  | inl (user, known) ↦
                      check_owner-IsAdmissible s req user metric id user_id result parsed_user known
                        parsed not_nan not_inf
                        (ground (arith, passed, int_eq_iff req.failed (pos 0)))
                        (sym (rw (check_benchmark, good, passed, known) refl) ∙ h)
                ]
              ]
      ]

  -- What the tables are after a report: as they were, with a pipeline in the queue, with an
  -- admissible row, or with both, and with no change at all unless the token is a configured one.
  pub data IsOutcome (s : S) (req : ReportRequest) : S → Type 0 where
    unchanged : IsOutcome s req s
    queued :
        (id : ℤ)
        → is_token_valid settings req.token ≡ true
        → settings.atoi req.pipeline_id ≡ ok id
        → req.metric ≡ ""
        → IsOutcome s req (tables.add_fresh s id req.project_name).0
    stored :
        (result : BenchmarkResult F)
        → is_token_valid settings req.token ≡ true
        → settings.atoi req.pipeline_id ≡ ok result.pipeline_id
        → IsAdmissible s req result
        → IsOutcome s req (tables.add_benchmark_result s result).0
    stored_and_queued :
        (result : BenchmarkResult F)
        → is_token_valid settings req.token ≡ true
        → settings.atoi req.pipeline_id ≡ ok result.pipeline_id
        → IsAdmissible s req result
        → IsOutcome s req
            (tables.add_fresh
              (tables.add_benchmark_result s result).0
              result.pipeline_id
              req.project_name).0

  internal-state : {A : Type 0} (r : S × Result String A) → (internal r).0 ≡ r.0
  internal-state (s, ok a) = refl
  internal-state (s, err e) = refl

  stored_then_queued :
      (P : S → Type 0) (r : S × Result String (Unit {0})) (id : ℤ) (project : String)
      → P r.0
      → P (tables.add_fresh r.0 id project).0
      → P (and_then (internal r) (λ t _. internal (tables.add_fresh t id project))).0
  stored_then_queued P (s, ok a) id project first both =
      subst P (sym (internal-state (tables.add_fresh s id project))) both
  stored_then_queued P (s, err e) id project first both = first

  report_valid-IsOutcome :
      (s : S) (req : ReportRequest) (id user_id : ℤ)
      → is_token_valid settings req.token ≡ true
      → settings.atoi req.pipeline_id ≡ ok id
      → settings.atoi req.user_id ≡ ok user_id
      → IsOutcome s req (report_valid settings tables s req id user_id).0
  unfolding report_valid store_benchmark
  report_valid-IsOutcome s req id user_id valid parsed parsed_user =
      elim (Bool-cases (req.metric == "")) [
        | inl none_given ↦
            rw (report_valid, store_benchmark, none_given)
              (subst (IsOutcome s req)
                (sym (internal-state (tables.add_fresh s id req.project_name)))
                (queued id valid parsed ((eq_iff req.metric "").0 none_given)))
        | inr given ↦ elim (Result-cases (check_benchmark settings tables s req id user_id)) [
          | inr (refusal, bad) ↦ rw (report_valid, store_benchmark, given, bad) unchanged
          | inl (result, good) ↦
              let (admissible, same) =
                check_benchmark-IsAdmissible s req id user_id result parsed_user good in
              rw (report_valid, store_benchmark, given, good)
                (stored_then_queued (IsOutcome s req) (tables.add_benchmark_result s result) id
                  req.project_name (stored result valid (parsed ∙ ap ok (sym same)) admissible)
                  (subst
                    (λ x.
                      IsOutcome s req
                        (tables.add_fresh (tables.add_benchmark_result s result).0 x
                          req.project_name).0)
                    same (stored_and_queued result valid (parsed ∙ ap ok (sym same)) admissible)))
        ]
      ]

  -- A report leaves the tables as they were, or puts a pipeline into the queue, or stores a row, or
  -- both; the last three only with a configured token, and a row only if it is admissible: a finite
  -- metric, without failures, of a known user's own project, for a task with a leaderboard in the
  -- deadlines of that user's group.
  pub report_justified :
      (s : S) (req : ReportRequest) → IsOutcome s req (report settings tables s (ok req)).0
  unfolding report
  report_justified s req = elim (Result-cases (settings.atoi req.pipeline_id)) [
    | inr (e, h) ↦ rw (report, h) unchanged
    | inl (id, h) ↦ elim (Result-cases (settings.atoi req.user_id)) [
      | inr (e, k) ↦ rw (report, h, k) unchanged
      | inl (user_id, k) ↦ elim (Bool-cases (is_token_valid settings req.token)) [
        | inr bad ↦ rw (report, h, k, bad) unchanged
        | inl valid ↦ rw (report, h, k, valid) (report_valid-IsOutcome s req id user_id valid h k)
      ]
    ]
  ]
