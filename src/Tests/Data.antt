-- ===== src/Tests/Data.antt =====
-- A student, a course of two tasks, and numbers that stand for `float64`.
use notmanytuples.Prelude.{
  ℕ, ◌+◌, ◌-◌, ◌*◌, ◌/◌, String, false, none, some, List, [], ◌∷◌, arith, ltb, eqb, if◌then◌else◌,
}
use notmanytuples.Prelude.Int.{ℤ, pos, pos_part}
use notmanytuples.Prelude.Float.{Float, FloatOrder}
use notmanytuples.Config.{MergeRequestsConfig}
use notmanytuples.Models.{User, Pipeline, Flag, MergeRequest}
use notmanytuples.Deadlines.{linear, Task, TaskGroup, Deadlines}
use notmanytuples.Scorer.Environment.{ProjectNameFactory, Environment}
use notmanytuples.Scorer.Leaderboard.{GroupBenchmark}

abbrev pub nat_float : Float ℕ
nat_float = record {
  of_int = pos_part;
  add = ◌+◌;
  sub = ◌-◌;
  mul = ◌*◌;
  div = ◌/◌;
  eq = eqb;
  lt = ltb;
  to_int = pos;
  round = λ x. x;
  max = λ x y. if ltb x y then y else x;
  exp = λ x. x + 1;
  seconds = pos_part;
  is_nan = λ _. false;
  is_inf = λ _. false;
}

pub nat_order : FloatOrder nat_float
nat_order = record {
  eq_symm = λ a b h. ground arith;
  eq_trans = λ a b c h k. ground arith;
  lt_irrefl = λ a. ground arith;
  lt_trans = λ a b c h k. ground arith;
  lt_ne = λ a b h. ground arith;
  eq_lt = λ a b c h k. ground arith;
  lt_eq = λ a b c h k. ground arith;
  lt_total = λ a b h k p q. ground arith;
}

abbrev pub names : ProjectNameFactory
names = record {
  make_project_url = λ _. "https://gitlab/ann";
  make_pipeline_url = λ _ _. "https://gitlab/ann/pipelines";
  make_branch_url = λ _ _. "https://gitlab/ann/tree";
  make_merge_request_url = λ _ _. "https://gitlab/ann/merge_requests";
  make_task_url = λ task. task;
}

abbrev pub env : Environment
env = record {
  projects = names;
  now = pos 900;
  title_case = λ t. t;
  query_escape = λ t. t;
  format_minutes = λ _. "1m0s";
}

abbrev pub ann : User
ann = record {
  id = 1;
  gitlab_id = none;
  gitlab_login = some "ann";
  repository = some "https://gitlab/course/hse-ann";
  first_name = "Ann";
  last_name = "Lee";
  group_name = "hse";
  subgroup_name = "";
  email = "ann@example.com";
  telegram_id = none;
  has_retake = false;
}

abbrev pub sum_task : Task ℕ
sum_task = record { task = "sum"; score = pos 100; crashme = false; leaderboard = none }

abbrev pub race_task : Task ℕ
race_task = record {
  task = "race";
  score = pos 200;
  crashme = false;
  leaderboard = some (record { bonus = 1 });
}

abbrev pub week : TaskGroup ℕ
week = record {
  title = "week-1";
  group = "";
  deadline = pos 500;
  start = pos 0;
  tasks = sum_task ∷ race_task ∷ [];
}

abbrev pub course : Deadlines ℕ
course = record {
  assignments = week ∷ [];
  scoring = record {
    policies = record { name = "soft"; kind = "linear"; policy = linear (pos 100) 0 } ∷ [];
    groups = record { name = "labs"; weight = 1; max_score = pos 0; policy = "soft" } ∷ [];
    default_group = "labs";
    final_deadline = none;
    retake_penalty = 0;
  };
  policies = [];
  groups = [];
}

abbrev pub pipeline : ℤ → String → ℤ → Pipeline
pipeline id status started_at = record {
  id = id;
  project = "hse-ann";
  task = "sum";
  status = status;
  started_at = started_at;
}

abbrev pub pipelines : List Pipeline
pipelines =
    pipeline (pos 1) "failed" (pos 100)
    ∷ pipeline (pos 2) "success" (pos 200)
    ∷ pipeline (pos 3) "success" (pos 300)
    ∷ []

abbrev pub flags : List Flag
flags = record { id = "f"; task = "crash"; gitlab_login = some "ann"; created_at = pos 50 } ∷ []

abbrev pub request : ℤ → String → String → MergeRequest
request id state status = record {
  id = id;
  project = "hse-ann";
  task = "sum";
  state = state;
  user_notes_count = pos 0;
  started_at = pos 100;
  merge_status = "can_be_merged";
  iid = id;
  sha = "c0ffee";
  merge_user_login = "";
  has_unresolved_notes = false;
  last_note_created_at = pos 0;
  last_pipeline_id = id;
  last_pipeline_status = status;
  last_pipeline_created_at = pos 200;
  extra_changes = false;
  no_changes = false;
}

abbrev pub requests : List MergeRequest
requests = request (pos 4) "closed" "failed" ∷ request (pos 5) "opened" "success" ∷ []

abbrev pub workflow : MergeRequestsConfig
workflow = record { target_branch = ""; review_ttl = pos 300; robot_login = "robot" }

abbrev pub result : ℤ → String → ℕ → ℤ → GroupBenchmark ℕ
result id login metric submitted_at = record {
  gitlab_login = login;
  first_name = login;
  last_name = "";
  task = "race";
  pipeline_id = id;
  metric = metric;
  submitted_at = submitted_at;
}

abbrev pub results : List (GroupBenchmark ℕ)
results = result (pos 6) "ann" 30 (pos 400) ∷ result (pos 7) "bob" 20 (pos 450) ∷ []
