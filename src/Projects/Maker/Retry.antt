-- ===== src/Projects/Maker/Retry.antt =====
-- A student gets a repository once GitLab has finished the fork.
use notmanytuples.Prelude.{
  ℕ, zero, suc, ◌<◌, String, ◌≡◌, refl, ap, ◌∙◌, inl, inr, true, false, Option, none, some, List,
  ◌==◌, string_eq, ==_ne, Bool-cases, if◌then◌else◌,
}
use notmanytuples.Prelude.Int.{ℤ}
use notmanytuples.Models.{User}
use notmanytuples.Result.{Result, ok, err, and_then_ok}
use notmanytuples.Scorer.Errors.{Error}
use notmanytuples.Projects.{
  Api, AccessLevel, Project, existing, missing, InitError, project_not_ready, developer,
  use_template_project, fork_finished, check_fork_ready, create_readme, configure_project,
  protect_branch, protect_again, branch_of, secure_project, fill_project, prepare_project,
  create_missing, find_or_create_project, add_project_member, with_url, give_access,
  initialize_linked, initialize_project,
}
use notmanytuples.Projects.Names.{
  GitlabConfig, Cleanup, make_project_name, make_project_url, make_project_with_namespace,
}
use notmanytuples.Projects.Access.{IsForked}
use notmanytuples.Projects.Pages.{Answers, is_member, find_member_total}
use notmanytuples.Prelude.Pages.{page_count}
use notmanytuples.Projects.Maker.{
  Users, Attempt, retry_later, gave_up, initialized, stored, store_repository, settle,
  maybe_initialize_project,
}

module _ {S : Type 0} (api : Api S) (conf : GitlabConfig) (users : Users S) (cleanup : Cleanup)
    (fuel : ℕ) where
  -- What the timer does with an attempt: where it is told to, it queues the user again, and the
  -- next attempt finds the world as time has left it.
  after_wait : (S → S) → (S → Option (S × Attempt)) → Option (S × Attempt) → Option (S × Attempt)
  after_wait wait again none = none
  after_wait wait again (some (s, gave_up)) = some (s, gave_up)
  after_wait wait again (some (s, initialized)) = some (s, initialized)
  after_wait wait again (some (s, retry_later)) = again (wait s)

  unfoldable pub attempts : (S → S) → ℕ → User → S → Option (S × Attempt)
  unfolding after_wait maybe_initialize_project
  attempts wait zero user s = maybe_initialize_project api conf users cleanup fuel s user
  attempts wait (suc n) user s =
      after_wait wait (attempts wait n user)
        (maybe_initialize_project api conf users cleanup fuel s user)

  -- GitLab and the table of users take every call that the last attempt makes, and the pages of
  -- members end within the fuel.
  pub record IsWilling (gitlab_id : ℤ) : Type 0 where
    pub edits :
        (s : S) (id : ℤ) (path : String) → (t : S) × (api.edit_project s id path ≡ (t, ok tt))
    pub protects :
        (s : S) (id : ℤ) (branch : String) (level : AccessLevel)
        → (t : S) × (api.protect_branch s id branch level ≡ (t, ok tt))
    pub adds : (s : S) (id : ℤ) → (t : S) × (api.add_member s id gitlab_id developer ≡ (t, ok tt))
    pub pages :
        (s : S) (id : ℤ)
        → (first : List ℤ) × (pages : List (List ℤ)) × Answers api s id first pages 0
          × (page_count pages < fuel)
    pub stores : (s : S) (user : User) → (t : S) × (users.set_user_repository s user ≡ (t, ok tt))

  module _ (user : User) (login : String) (gitlab_id : ℤ)
      (has_login : user.gitlab_login ≡ some login) (has_id : user.gitlab_id ≡ some gitlab_id)
      (template : use_template_project api conf ≡ true) where
    abbrev pub project_name : String
    project_name = make_project_name cleanup user login

    -- The way of a project to a finished fork, over so many waits.
    pub data Progress (wait : S → S) : ℕ → S → Type 0 where
      ready :
          (s : S) (project : Project)
          → api.get_project s (make_project_with_namespace conf project_name) ≡ existing project
          → IsForked project
          → Progress wait 0 s
      pending :
          (n : ℕ) (s : S) (project : Project)
          → api.get_project s (make_project_with_namespace conf project_name) ≡ existing project
          → fork_finished project.import_status ≡ (false, false)
          → Progress wait n (wait s)
          → Progress wait (suc n) s
      absent :
          (n : ℕ) (s t : S) (project : Project) (e : Error)
          → api.get_project s (make_project_with_namespace conf project_name) ≡ missing (some 404) e
          → api.fork_project s conf.template_project project_name ≡ (t, ok project)
          → fork_finished project.import_status ≡ (false, false)
          → Progress wait n (wait t)
          → Progress wait (suc n) s

    maybe_initialize_project-linked :
        (s : S) (r : S × Result InitError Project)
        → prepare_project api conf s project_name ≡ r
        → maybe_initialize_project api conf users cleanup fuel s user
          ≡ settle api conf users cleanup fuel user
              (give_access api conf fuel project_name gitlab_id r)
    unfolding maybe_initialize_project settle initialize_project initialize_linked
    maybe_initialize_project-linked s r h =
        simp (maybe_initialize_project, has_id, has_login, initialize_project, initialize_linked, h)
          refl

    -- A fork that is not finished leaves the world alone, and the user is queued again.
    fill_project_pending :
        (s : S) (project : Project)
        → fork_finished project.import_status ≡ (false, false)
        → fill_project api conf s project ≡ (s, err project_not_ready)
    unfolding fill_project check_fork_ready
    fill_project_pending s project h = rw (fill_project, template, check_fork_ready, h) refl

    secure_project-ok :
        IsWilling gitlab_id
        → (s : S) (project : Project) → (t : S) × (secure_project api conf s project ≡ (t, ok tt))
    unfolding secure_project configure_project protect_branch protect_again
    secure_project-ok willing s project =
        let (s₁, edited) = willing.edits s project.id conf.ci_config_path in
        let (s₂, protected) =
          willing.protects s₁ project.id (branch_of api conf project).0
            (branch_of api conf project).1 in
        (
          s₂,
          rw (secure_project, configure_project, edited, protect_branch, protected, protect_again)
              (ap (λ r. (r.0, ok tt)) protected),
        )

    fill_project-ok :
        IsWilling gitlab_id
        → (s : S) (project : Project) → IsForked project
        → (t : S) × (fill_project api conf s project ≡ (t, ok tt))
    unfolding fill_project check_fork_ready
    fill_project-ok willing s project (finished, named) =
        let branch_named : (project.default_branch == "") ≡ false =
          ==_ne project.default_branch "" named in
        let (t, secured) = secure_project-ok willing s project in
        let checked : check_fork_ready api conf s project ≡ (s, ok tt) =
          rw (check_fork_ready, finished, branch_named) refl in
        let filled : (if use_template_project api conf
              then check_fork_ready api conf s project
              else create_readme api conf s project)
            ≡ (s, ok tt) =
          rw template checked in
        (t, and_then_ok (λ v _. secure_project api conf v project) filled ∙ secured)

    existing-found :
        (s : S) (project : Project)
        → api.get_project s (make_project_with_namespace conf project_name) ≡ existing project
        → find_or_create_project api conf s project_name ≡ (s, ok project)
    unfolding find_or_create_project
    existing-found s project h = rw (find_or_create_project, h) refl

    absent-forked :
        (s t : S) (project : Project) (e : Error)
        → api.get_project s (make_project_with_namespace conf project_name) ≡ missing (some 404) e
        → api.fork_project s conf.template_project project_name ≡ (t, ok project)
        → find_or_create_project api conf s project_name ≡ (t, ok project)
    unfolding find_or_create_project create_missing
    absent-forked s t project e gone forked =
        rw (find_or_create_project, gone, create_missing, template, forked) refl

    -- An attempt while the fork is in progress asks for a retry.
    attempt_pending :
        (s t : S) (project : Project)
        → find_or_create_project api conf s project_name ≡ (t, ok project)
        → fork_finished project.import_status ≡ (false, false)
        → maybe_initialize_project api conf users cleanup fuel s user ≡ some (t, retry_later)
    unfolding prepare_project give_access settle store_repository
    attempt_pending s t project got unfinished =
        maybe_initialize_project-linked s (t, err project_not_ready)
          (rw (prepare_project, got, fill_project_pending t project unfinished) refl)

    add_project_member-ok :
        IsWilling gitlab_id
        → (s : S) (project : Project)
        → (t : S) × (add_project_member api conf fuel s project gitlab_id ≡ some (t, ok tt))
    unfolding add_project_member
    add_project_member-ok willing s project =
        let (first, pages, answers, enough) = willing.pages s project.id in
        let total =
          find_member_total api conf pages first fuel s project.id gitlab_id 0 answers enough in
        elim (Bool-cases (is_member gitlab_id first pages)) [
          | inl among ↦ (s, rw (add_project_member, total, among) refl)
          | inr apart ↦
              let (t, added) = willing.adds s project.id in
              (t, rw (add_project_member, total, apart, added) refl)
        ]

    -- An attempt once the fork is finished stores the address of the project.
    attempt_ready :
        IsWilling gitlab_id
        → (s : S) (project : Project)
        → find_or_create_project api conf s project_name ≡ (s, ok project)
        → IsForked project
        → (t : S) × (u : S) × (maybe_initialize_project api conf users cleanup fuel s user
            ≡ some (u, initialized))
          × (users.set_user_repository t
                (record user { repository = some (make_project_url conf project_name) })
              ≡ (u, ok tt))
    unfolding prepare_project give_access with_url settle store_repository stored
    attempt_ready willing s project got forked =
        let (s₁, filled) = fill_project-ok willing s project forked in
        let (s₂, added) = add_project_member-ok willing s₁ project in
        let linked_user : User = record user {
          repository = some (make_project_url conf project_name);
        } in
        let (s₃, kept) = willing.stores s₂ linked_user in
        let step =
          maybe_initialize_project-linked s (s₁, ok project)
            (rw (prepare_project, got, filled) refl) in
        (s₂, s₃, step ∙ rw (added, kept) refl, kept)

    -- In a course with a template, where GitLab and the table of users take the calls of the last
    -- attempt and the pages of members end within the fuel: a student with a linked account, whose
    -- fork is absent or in progress and becomes finished after so many waits, has the address of the
    -- project stored as the repository by the attempt that follows the last wait.
    pub attempts_succeed :
        IsWilling gitlab_id
        → (wait : S → S) (n : ℕ) (s : S) → Progress wait n s
        → (t : S) × (u : S) × (attempts wait n user s ≡ some (u, initialized))
          × (users.set_user_repository t
                (record user { repository = some (make_project_url conf project_name) })
              ≡ (u, ok tt))
    unfolding attempts after_wait
    attempts_succeed willing wait zero s (ready s' project found forked) =
        attempt_ready willing s project (existing-found s project found) forked
    attempts_succeed willing wait (suc n) s (pending m s' project found unfinished later) =
        let (t, u, done, kept) = attempts_succeed willing wait n (wait s) later in
        (
          t,
          u,
          rw (attempts, attempt_pending s s project (existing-found s project found) unfinished)
              done,
          kept,
        )
    attempts_succeed willing wait (suc n) s (absent m s' v project e gone forked unfinished later) =
        let (t, u, done, kept) = attempts_succeed willing wait n (wait v) later in
        (
          t,
          u,
          rw
              (
                attempts,
                attempt_pending s v project (absent-forked s v project e gone forked) unfinished,
              )
              done,
          kept,
        )
