-- ===== src/Tests/Projects.antt =====
-- A student's fork, on a GitLab whose state is how many waits the import still takes.
use notmanytuples.Prelude.{
  ℕ, zero, suc, String, ◌≡◌, refl, true, none, some, [], ◌∷◌, arith, eq_iff,
}
use notmanytuples.Prelude.Int.{ℤ, pos}
use notmanytuples.Models.{User}
use notmanytuples.Result.{ok}
use notmanytuples.Projects.{
  Api, Project, existing, use_template_project, fork_finished, find_member, initialize_project,
}
use notmanytuples.Projects.Names.{
  GitlabConfig, Cleanup, make_project_name, make_project_url, cleanup_name,
}
use notmanytuples.Projects.Pages.{find_member_total}
use notmanytuples.Projects.Access.{IsForked, IsPrepared, initialize_project_secured}
use notmanytuples.Projects.Found.{IsFound, IsMember}
use notmanytuples.Projects.Maker.{Users, initialized}
use notmanytuples.Projects.Maker.Retry.{
  IsWilling, Progress, ready, pending, attempts, attempts_succeed,
}
use notmanytuples.Tests.Data.{ann}

abbrev imported : ℕ → Project
imported zero = record { id = pos 5; import_status = "finished"; default_branch = "main" }
imported (suc n) = record { id = pos 5; import_status = "started"; default_branch = "" }

-- Two pages of members.
abbrev api : Api ℕ
api = record {
  get_project = λ n name. existing (imported n);
  fork_project = λ n template name. (n, ok (imported n));
  create_project = λ n name. (n, ok (imported n));
  delete_project = λ n id. (n, ok tt);
  create_commit = λ n id readme. (n, ok tt);
  edit_project = λ n id path. (n, ok tt);
  protect_branch = λ n id branch level. (n, ok tt);
  unprotect_branch = λ n id branch. (n, ok tt);
  list_members = λ n id page. elim page [
    | zero ↦ ok (record { members = pos 1 ∷ []; current_page = 1; total_pages = 2; next_page = 2 })
    | suc p ↦ ok (record { members = pos 2 ∷ []; current_page = 2; total_pages = 2; next_page = 0 })
  ];
  add_member = λ n id user level. (n, ok tt);
}

abbrev conf : GitlabConfig
conf = record {
  base_url = "https://gitlab";
  group_name = "course";
  template_project = "course/template";
  ci_config_path = ".ci.yml";
  default_readme = "hello";
  task_url_prefix = "https://gitlab/tasks";
}

abbrev cleanup : Cleanup
cleanup = record {
  transliterate = λ name. name;
  drop_double_underscores = λ login. login;
  show = λ n. "7";
}

abbrev users : Users ℕ
users = record { list_users_without_repos = λ n. ok []; set_user_repository = λ n user. (n, ok tt) }

abbrev student : User
student = record ann { gitlab_id = some (pos 2); repository = none }

abbrev forget_one : ℕ → ℕ
forget_one zero = zero
forget_one (suc n) = n

with_template : use_template_project api conf ≡ true
unfolding use_template_project
with_template = refl

willing : IsWilling api conf users cleanup 3 (pos 2)
willing = record {
  edits = λ n id path. (n, refl);
  protects = λ n id branch level. (n, refl);
  adds = λ n id. (n, refl);
  pages = λ n id.
      (pos 1 ∷ [], (pos 2 ∷ []) ∷ [], (_, refl, refl, refl, (_, refl, refl, refl)), omega arith);
  stores = λ n user. (n, refl);
}

finished_fork : IsForked (imported 0)
unfolding fork_finished
finished_fork = (refl, λ e. absurd (ground (arith, eq_iff "main" "")))

one_wait :
    Progress api conf users cleanup 3 student "ann" (pos 2) refl refl with_template forget_one 1 1
unfolding fork_finished
one_wait = pending 0 1 (imported 1) refl refl (ready 0 (imported 0) refl finished_fork)

attempts_succeed_example :
    (t : ℕ) × (u : ℕ) × (attempts api conf users cleanup 3 forget_one 1 student 1
      ≡ some (u, initialized))
    × (users.set_user_repository t (record student {
      repository = some (make_project_url conf (make_project_name cleanup student "ann"));
    })
        ≡ (u, ok tt))
attempts_succeed_example =
    attempts_succeed api conf users cleanup 3 student "ann" (pos 2) refl refl with_template willing
      forget_one 1 1 one_wait

find_member_total_example : find_member api conf 3 0 (pos 5) (pos 2) 0 ≡ some (ok true)
find_member_total_example =
    find_member_total api conf ((pos 2 ∷ []) ∷ []) (pos 1 ∷ []) 3 0 (pos 5) (pos 2) 0
      (_, refl, refl, refl, (_, refl, refl, refl)) (omega arith)

ann_initialized :
    initialize_project api conf 3 cleanup 0 student
    ≡ some (0, ok "https://gitlab/course/hse-Ann-Lee-ann")
unfolding initialize_project cleanup_name
ann_initialized = refl

initialize_project_secured_example :
    (login : String) × (gitlab_id : ℤ) × (project : Project) × (s₁ : ℕ) × (s₂ : ℕ)
    × (student.gitlab_login ≡ some login)
    × (student.gitlab_id ≡ some gitlab_id)
    × IsFound api conf 0 s₁ (make_project_name cleanup student login) project
    × IsPrepared api conf s₁ s₂ project
    × IsMember api conf 3 s₂ 0 project gitlab_id
    × ("https://gitlab/course/hse-Ann-Lee-ann"
        ≡ make_project_url conf (make_project_name cleanup student login))
initialize_project_secured_example =
    initialize_project_secured api conf 3 cleanup 0 0 student
      "https://gitlab/course/hse-Ann-Lee-ann" ann_initialized
