-- ===== src/Projects/Access.antt =====
-- When `InitializeProject` gives a student access to a project.
use notmanytuples.Prelude.{
  ℕ, String, ◌≡◌, ◌≢◌, ◌⊎◌, refl, sym, ap, ◌∙◌, inl, inr, true, false, ◌||◌, Option, none, some,
  ◌==◌, string_eq, if◌then◌else◌, Bool-cases, Option-cases, arith, eq_iff,
}
use mathlib.Core.Path.{subst}
use notmanytuples.Prelude.Int.{ℤ}
use notmanytuples.Models.{User}
use notmanytuples.Result.{Result, ok, err, and_then, and_then-eq-ok}
use notmanytuples.Scorer.Errors.{Error}
use notmanytuples.Projects.{
  Api, Project, InitError, project_not_ready, use_template_project, fork_finished, check_fork_ready,
  secure_project, create_readme, fill_project, prepare_project, find_or_create_project,
  add_project_member, with_url, give_access, initialize_linked, initialize_project, delete_failed,
}
use notmanytuples.Projects.Secured.{
  IsSecured, IsCommitted, secure_project-IsSecured, create_readme-IsCommitted,
}
use notmanytuples.Projects.Found.{
  IsMember, IsFound, add_project_member-IsMember, find_or_create_project-IsFound,
}
use notmanytuples.Projects.Names.{GitlabConfig, Cleanup, make_project_name, make_project_url}

-- The three classes of `forkFinished`.
pub fork_finished-cases :
    (status : String)
    → (fork_finished status ≡ (true, false))
      ⊎ ((fork_finished status ≡ (false, true)) ⊎ (fork_finished status ≡ (false, false)))
unfolding fork_finished
fork_finished-cases status =
    elim (Bool-cases (status == "finished" || status == "none" || status == "")) [
      | inl ready ↦ inl (rw ready refl)
      | inr other ↦ elim (Bool-cases (status == "failed")) [
        | inl broken ↦ inr (inl (rw (other, broken) refl))
        | inr pending ↦ inr (inr (rw (other, pending) refl))
      ]
    ]

not_ok : {A : Type 0} {e : InitError} {a : A} → ¬ (◌≡◌ {A = Result InitError A} (err e) (ok a))
not_ok h = absurd (ground arith)

-- A fork is complete.
abbrev pub IsForked : Project → Type 0
IsForked project =
    (fork_finished project.import_status ≡ (true, false)) × (project.default_branch ≢ "")

-- GitLab has finished the import of the fork, or had nothing to import, and there is a branch.
abbrev pub IsFinished : Project → Type 0
IsFinished project =
    ((project.import_status == "finished"
        || project.import_status == "none"
        || project.import_status == "")
      ≡ true)
    × (project.default_branch ≢ "")

IsForked-IsFinished : (project : Project) → IsForked project → IsFinished project
unfolding fork_finished
IsForked-IsFinished project h =
    let status = project.import_status in
    elim (Bool-cases (status == "finished" || status == "none" || status == "")) [
      | inl finished ↦ (finished, h.1)
      | inr other ↦ absurd (ground (arith, other, h.0))
    ]

module _ {S : Type 0} (api : Api S) (conf : GitlabConfig) where
  delete_failed-ne-ok :
      (r : S × Result Error (Unit {0})) (t : S) → ¬ (delete_failed api conf r ≡ (t, ok tt))
  unfolding delete_failed
  delete_failed-ne-ok (s, ok a) t h = not_ok (ap (λ r. r.1) h)
  delete_failed-ne-ok (s, err e) t h = not_ok (ap (λ r. r.1) h)

  -- A check of a fork that succeeds leaves GitLab as it was.
  check_fork_ready-IsForked :
      (s t : S) (project : Project)
      → check_fork_ready api conf s project ≡ (t, ok tt)
      → IsForked project × (s ≡ t)
  unfolding check_fork_ready delete_failed fork_finished
  check_fork_ready-IsForked s t project h = elim (fork_finished-cases project.import_status) [
    | inl ready ↦ elim (Bool-cases (project.default_branch == "")) [
      | inl empty ↦
          let step : check_fork_ready api conf s project ≡ (s, err project_not_ready) =
            rw (check_fork_ready, ready, empty) refl in
          absurd (not_ok (ap (λ r. r.1) (sym step ∙ h)))
      | inr named ↦
          let step : check_fork_ready api conf s project ≡ (s, ok tt) =
            rw (check_fork_ready, ready, named) refl in
          (
            (ready, λ e. absurd (ground (arith, eq_iff project.default_branch ""))),
            ap (λ r. r.0) (sym step ∙ h),
          )
    ]
    | inr (inl broken) ↦ absurd (
        delete_failed-ne-ok (api.delete_project s project.id) t
          (sym (rw (check_fork_ready, broken) refl) ∙ h))
    | inr (inr pending) ↦
        let step : check_fork_ready api conf s project ≡ (s, err project_not_ready) =
          rw (check_fork_ready, pending) refl in
        absurd (not_ok (ap (λ r. r.1) (sym step ∙ h)))
  ]

  -- The project is filled and then secured: in a course with a template it is a finished fork that
  -- has a default branch, and else it has its first commit.
  pub record IsPrepared (s t : S) (project : Project) : Type 0 where
    pub filled : S
    pub of_fork : (conf.template_project == "") ≡ false → IsFinished project × (s ≡ filled)
    pub of_new : (conf.template_project == "") ≡ true → IsCommitted api conf s filled project
    pub secured : IsSecured api conf filled t project

  fill_project-IsPrepared :
      (s t : S) (project : Project)
      → fill_project api conf s project ≡ (t, ok tt)
      → IsPrepared s t project
  unfolding fill_project use_template_project
  fill_project-IsPrepared s t project h =
      let next = λ (u : S) (_ : Unit {0}). secure_project api conf u project in
      let first : S × Result InitError (Unit {0}) =
        if use_template_project api conf
        then check_fork_ready api conf s project
        else create_readme api conf s project in
      let (u, _, checked, rest) = and_then-eq-ok first next h in
      record {
        filled = u;
        of_fork = λ template.
            let (forked, same) =
              check_fork_ready-IsForked s u project (sym (rw template refl) ∙ checked) in
            (IsForked-IsFinished project forked, same);
        of_new =
            λ plain. create_readme-IsCommitted api conf s u project (sym (rw plain refl) ∙ checked);
        secured = secure_project-IsSecured api conf u t project rest;
      }

  with_url-eq-some :
      (name url : String) (r : Option (S × Result InitError (Unit {0}))) (t : S)
      → with_url api conf name r ≡ some (t, ok url)
      → (r ≡ some (t, ok tt)) × (url ≡ make_project_url conf name)
  unfolding with_url
  with_url-eq-some name url none t h = absurd (ground arith)
  with_url-eq-some name url (some (s, err e)) t h = absurd (ground arith)
  with_url-eq-some name url (some (s, ok a)) t h = (
    ap (λ r. elim r [ none ↦ some (s, ok tt) | some x ↦ some (x.0, ok tt) ]) h,
    sym (ap (λ r. elim r [ none ↦ url | some x ↦ elim x.1 [ ok y ↦ y | err _ ↦ url ] ]) h),
  )

  give_access-parts :
      (fuel : ℕ) (name url : String) (gitlab_id : ℤ) (r : S × Result InitError Project) (t : S)
      → give_access api conf fuel name gitlab_id r ≡ some (t, ok url)
      → (s : S) × (project : Project) × (r ≡ (s, ok project))
        × (add_project_member api conf fuel s project gitlab_id ≡ some (t, ok tt))
        × (url ≡ make_project_url conf name)
  unfolding give_access
  give_access-parts fuel name url gitlab_id (s, err e) t h = absurd (ground arith)
  give_access-parts fuel name url gitlab_id (s, ok project) t h =
      let (added, same) =
        with_url-eq-some name url (add_project_member api conf fuel s project gitlab_id) t h in
      (s, project, refl, added, same)

  -- Where `InitializeProject` gives a URL, it is that of the project named after the user. GitLab
  -- knew that project or has made it, by a fork in a course with a template; then it was a finished
  -- fork or got its first commit, and then its CI file was configured and its branch protected; only
  -- after all that, and as the last step, the user was found among its members or made one.
  pub initialize_project_secured :
      (fuel : ℕ) (cleanup : Cleanup) (s t : S) (user : User) (url : String)
      → initialize_project api conf fuel cleanup s user ≡ some (t, ok url)
      → (login : String) × (gitlab_id : ℤ) × (project : Project) × (s₁ : S) × (s₂ : S)
        × (user.gitlab_login ≡ some login)
        × (user.gitlab_id ≡ some gitlab_id)
        × IsFound api conf s s₁ (make_project_name cleanup user login) project
        × IsPrepared s₁ s₂ project
        × IsMember api conf fuel s₂ t project gitlab_id
        × (url ≡ make_project_url conf (make_project_name cleanup user login))
  unfolding initialize_project initialize_linked prepare_project
  initialize_project_secured fuel cleanup s t user url h = elim (Option-cases user.gitlab_id) [
    | inl missing ↦ absurd (ground (arith, missing))
    | inr (gitlab_id, has_id) ↦ elim (Option-cases user.gitlab_login) [
      | inl missing ↦ absurd (ground (arith, has_id, missing))
      | inr (login, has_login) ↦
          let name : String = make_project_name cleanup user login in
          let (s₂, project, prepared, added, same) =
            give_access-parts fuel name url gitlab_id (prepare_project api conf s name) t
              (sym (rw (initialize_project, has_id, has_login, initialize_linked) refl) ∙ h) in
          let (s₁, project', got, rest) =
            and_then-eq-ok (find_or_create_project api conf s name)
              (λ t project. and_then (fill_project api conf t project) (λ u _. (u, ok project)))
              prepared in
          let (u, _, filled, last) =
            and_then-eq-ok (fill_project api conf s₁ project') (λ u _. (u, ok project')) rest in
          let same_project : project' ≡ project =
            ap (λ r. elim r.1 [ ok y ↦ y | err _ ↦ project' ]) last in
          let same_state : u ≡ s₂ = ap (λ r. r.0) last in
          (
            login,
            gitlab_id,
            project,
            s₁,
            s₂,
            has_login,
            has_id,
            find_or_create_project-IsFound api conf s s₁ name project
                (got ∙ ap (λ p. (s₁, ok p)) same_project),
            fill_project-IsPrepared s₁ s₂ project (
                subst (λ p. fill_project api conf s₁ p ≡ (s₂, ok tt)) same_project
                  (filled ∙ ap (λ v. (v, ok tt)) same_state)),
            add_project_member-IsMember api conf fuel s₂ t project gitlab_id added,
            same,
          )
    ]
  ]
