-- ===== src/Projects.antt =====
-- internal/gitlab/gitlab.go: names and addresses of the students' projects, and `InitializeProject`.
pub mod Names
pub mod Maker
pub mod Pages
pub mod Secured
pub mod Found
pub mod Access
use notmanytuples.Prelude.{
  ℕ, zero, suc, String, Bool, true, false, not, ◌&&◌, ◌||◌, Option, none, some, List, [], ◌∷◌,
  if◌then◌else◌, ◌==◌, string_eq, eqb, ltb,
}
use notmanytuples.Prelude.Int.{ℤ, pos, int_eq}
use notmanytuples.Prelude.Lists.{any_of}
use notmanytuples.Prelude.Text.{◌<>◌}
use notmanytuples.Models.{User}
use notmanytuples.Result.{Result, ok, err, and_then}
use notmanytuples.Scorer.Errors.{Error, failed, wrap_error}
use notmanytuples.Projects.Names.{
  GitlabConfig, Cleanup, make_project_name, make_project_url, make_project_with_namespace,
}

pub record Project : Type 0 where
  pub id : ℤ
  pub import_status : String
  pub default_branch : String

-- The answer to a lookup of a project: the error comes with the status of the response, if any.
pub data Lookup : Type 0 where
  existing : Project → Lookup
  missing : (status_code : Option ℕ) → Error → Lookup

-- An error, with its message where it is an `ErrorResponse` of GitLab.
pub record ApiError : Type 0 where
  pub error : Error
  pub message : Option String

pub record MembersPage : Type 0 where
  pub members : List ℤ
  pub current_page : ℕ
  pub total_pages : ℕ
  pub next_page : ℕ

pub data AccessLevel : Type 0 where
  developer : AccessLevel
  maintainer : AccessLevel

-- GitLab with its state `S`.
pub record Api (S : Type 0) : Type 0 where
  pub get_project : S → String → Lookup
  pub fork_project : S → (template name : String) → S × Result Error Project
  pub create_project : S → (name : String) → S × Result Error Project
  pub delete_project : S → ℤ → S × Result Error (Unit {0})
  pub create_commit : S → ℤ → (readme : String) → S × Result ApiError (Unit {0})
  pub edit_project : S → ℤ → (ci_config_path : String) → S × Result Error (Unit {0})
  pub protect_branch : S → ℤ → (branch : String) → AccessLevel → S × Result ApiError (Unit {0})
  pub unprotect_branch : S → ℤ → (branch : String) → S × Result Error (Unit {0})
  pub list_members : S → ℤ → (page : ℕ) → Result Error MembersPage
  pub add_member : S → ℤ → (user : ℤ) → AccessLevel → S × Result Error (Unit {0})

-- `ErrProjectNotReady`, or any other error.
pub data InitError : Type 0 where
  project_not_ready : InitError
  init_failed : Error → InitError

-- A call, its error wrapped.
abbrev pub wrapped : {S A : Type 0} → String → S × Result Error A → S × Result InitError A
wrapped message (s, ok a) = (s, ok a)
wrapped message (s, err e) = (s, err (init_failed (wrap_error message e)))

abbrev pub master : String
master = "master"

-- Ready, and failed.
unfoldable pub fork_finished : String → Bool × Bool
fork_finished status =
    if status == "finished" || status == "none" || status == ""
    then (true, false)
    else if status == "failed"
    then (false, true)
    else (false, false)

abbrev pub has_message : ApiError → String → Bool
has_message e text = elim e.message [ none ↦ false | some message ↦ message == text ]

module _ {S : Type 0} (api : Api S) (conf : GitlabConfig) where
  unfoldable pub use_template_project : Bool
  use_template_project = not (conf.template_project == "")

  create_missing : S → String → S × Result InitError Project
  unfolding use_template_project wrap_error
  create_missing s name =
      if use_template_project
      then wrapped "Failed to fork template project" (api.fork_project s conf.template_project name)
      else wrapped "Failed to create project" (api.create_project s name)

  unfoldable pub find_or_create_project : S → String → S × Result InitError Project
  unfolding create_missing make_project_with_namespace wrap_error
  find_or_create_project s name = elim (api.get_project s (make_project_with_namespace conf name)) [
    | existing project ↦ (s, ok project)
    | missing status e ↦
        if elim status [ none ↦ true | some code ↦ not (eqb code 404) ]
        then (s, err (init_failed (wrap_error "Failed to get project" e)))
        else create_missing s name
  ]

  unfoldable pub configure_project : S → Project → S × Result InitError (Unit {0})
  unfolding wrap_error
  configure_project s project =
      wrapped "Failed to configure project" (api.edit_project s project.id conf.ci_config_path)

  delete_failed : S × Result Error (Unit {0}) → S × Result InitError (Unit {0})
  unfolding wrap_error
  delete_failed (s, err e) = (s, err (init_failed (wrap_error "Failed to delete failed fork" e)))
  delete_failed (s, ok _) = (s, err (init_failed (failed "Fork failed, project deleted")))

  unfoldable pub check_fork_ready : S → Project → S × Result InitError (Unit {0})
  unfolding delete_failed fork_finished
  check_fork_ready s project =
      let (ready, broken) = fork_finished project.import_status in
      if broken
      then delete_failed (api.delete_project s project.id)
      else if not ready || project.default_branch == ""
      then (s, err project_not_ready)
      else (s, ok tt)

  readme_committed : S × Result ApiError (Unit {0}) → S × Result InitError (Unit {0})
  unfolding wrap_error
  readme_committed (s, ok _) = (s, ok tt)
  readme_committed (s, err e) =
      if has_message e "{message: A file with this name already exists}"
        || has_message e "{message: 403 Forbidden - You are not allowed to push into this branch}"
      then (s, ok tt)
      else (s, err (init_failed (wrap_error "Failed to create README" e.error)))

  unfoldable pub create_readme : S → Project → S × Result InitError (Unit {0})
  unfolding readme_committed
  create_readme s project = readme_committed (api.create_commit s project.id conf.default_readme)

  -- The last answer to the call that protects.
  protected : S × Result ApiError (Unit {0}) → S × Result InitError (Unit {0})
  unfolding wrap_error
  protected (s, ok _) = (s, ok tt)
  protected (s, err e) = (s, err (init_failed (wrap_error "Failed to protect branch" e.error)))

  protect_again :
      Project
      → String
      → AccessLevel
      → S × Result ApiError (Unit {0})
      → S × Result InitError (Unit {0})
  unfolding protected wrap_error
  protect_again project branch level (s, ok _) = (s, ok tt)
  protect_again project branch level (s, err e) =
      if has_message e ("{message: Protected branch '" <> branch <> "' already exists}")
      then and_then
          (wrapped "Failed to unprotect branch" (api.unprotect_branch s project.id branch))
          (λ t _. protected (api.protect_branch t project.id branch level))
      else protected (s, err e)

  unfoldable pub protect_branch :
      S → Project → String → AccessLevel → S × Result InitError (Unit {0})
  unfolding protect_again
  protect_branch s project branch level =
      protect_again project branch level (api.protect_branch s project.id branch level)

  -- The loop over the pages of members; `none` is a loop that has not ended within its fuel.
  unfoldable pub find_member : ℕ → S → ℤ → ℤ → ℕ → Option (Result Error Bool)
  find_member zero s project user page = none
  find_member (suc fuel) s project user page = elim (api.list_members s project page) [
    | err e ↦ some (err e)
    | ok answer ↦
        let rest = find_member fuel s project user answer.next_page in
        if any_of (λ member. int_eq member user) answer.members
        then some (ok true)
        else if not (ltb answer.current_page answer.total_pages)
        then some (ok false)
        else rest
  ]

  unfoldable pub add_project_member : ℕ → S → Project → ℤ → Option (S × Result InitError (Unit {0}))
  unfolding find_member wrap_error
  add_project_member fuel s project user = elim (find_member fuel s project.id user 0) [
    | none ↦ none
    | some (err e) ↦ some (s, err (init_failed (wrap_error "Failed to list project members" e)))
    | some (ok true) ↦ some (s, ok tt)
    | some (ok false) ↦
        some
          (wrapped "Failed to add user to the project" (api.add_member s project.id user developer))
  ]

  -- The branch to protect, and who may push to it.
  branch_of : Project → String × AccessLevel
  unfolding use_template_project
  branch_of project =
      if use_template_project then (project.default_branch, developer) else (master, maintainer)

  unfoldable pub secure_project : S → Project → S × Result InitError (Unit {0})
  unfolding configure_project protect_branch branch_of
  secure_project s project =
      and_then (configure_project s project)
        (λ t _. protect_branch t project (branch_of project).0 (branch_of project).1)

  -- The repository is filled, configured and protected.
  unfoldable pub fill_project : S → Project → S × Result InitError (Unit {0})
  unfolding check_fork_ready create_readme secure_project use_template_project
  fill_project s project =
      and_then
        (if use_template_project then check_fork_ready s project else create_readme s project)
        (λ t _. secure_project t project)

  unfoldable pub prepare_project : S → String → S × Result InitError Project
  unfolding find_or_create_project fill_project
  prepare_project s name =
      and_then (find_or_create_project s name)
        (λ t project. and_then (fill_project t project) (λ u _. (u, ok project)))

  with_url :
      String → Option (S × Result InitError (Unit {0})) → Option (S × Result InitError String)
  unfolding make_project_url
  with_url name none = none
  with_url name (some (t, err e)) = some (t, err e)
  with_url name (some (t, ok _)) = some (t, ok (make_project_url conf name))

  give_access : ℕ → String → ℤ → S × Result InitError Project → Option (S × Result InitError String)
  unfolding add_project_member with_url
  give_access fuel name user (s, err e) = some (s, err e)
  give_access fuel name user (s, ok project) =
      with_url name (add_project_member fuel s project user)

  initialize_linked : ℕ → Cleanup → S → User → ℤ → String → Option (S × Result InitError String)
  unfolding prepare_project give_access make_project_name
  initialize_linked fuel cleanup s user gitlab_id login =
      let name = make_project_name cleanup user login in
      give_access fuel name gitlab_id (prepare_project s name)

  unfoldable pub initialize_project : ℕ → Cleanup → S → User → Option (S × Result InitError String)
  unfolding initialize_linked
  initialize_project fuel cleanup s user = elim user.gitlab_id [
    | none ↦ some (s, err (init_failed (failed "Empty gitlab user")))
    | some gitlab_id ↦ elim user.gitlab_login [
      | none ↦ some (s, err (init_failed (failed "Empty gitlab user")))
      | some login ↦ initialize_linked fuel cleanup s user gitlab_id login
    ]
  ]
