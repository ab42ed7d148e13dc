-- ===== src/Projects/Secured.antt =====
-- What GitLab has answered to a step of `InitializeProject` that succeeds.
use notmanytuples.Prelude.{
  String, ◌≡◌, ◌⊎◌, refl, sym, ap, ◌∙◌, inl, inr, true, false, ◌||◌, ◌==◌, string_eq, Bool-cases,
  arith,
}
use mathlib.Core.Path.{subst}
use notmanytuples.Prelude.Text.{◌<>◌}
use notmanytuples.Result.{Result, ok, err, and_then, and_then-eq-ok}
use notmanytuples.Scorer.Errors.{Error, wrap_error}
use notmanytuples.Projects.{
  Api, ApiError, Project, AccessLevel, developer, maintainer, has_message, wrapped,
  use_template_project, configure_project, readme_committed, create_readme, protected,
  protect_again, protect_branch, branch_of, secure_project,
}
use notmanytuples.Projects.Names.{GitlabConfig}

pub wrapped-ok :
    {S A : Type 0} (message : String) (r : S × Result Error A) (t : S) (a : A)
    → wrapped message r ≡ (t, ok a)
    → r ≡ (t, ok a)
unfolding wrap_error
wrapped-ok message (s, ok b) t a h = ap (λ r. (r.0, elim r.1 [ ok y ↦ ok y | err _ ↦ ok b ])) h
wrapped-ok message (s, err e) t a h = absurd (ground arith)

module _ {S : Type 0} (api : Api S) (conf : GitlabConfig) where
  -- GitLab has protected the branch, at once or after a protection that was there was taken away.
  pub data IsProtected (s t : S) (project : Project) (branch : String) (level : AccessLevel)
      : Type 0 where
    at_once :
        api.protect_branch s project.id branch level ≡ (t, ok tt)
        → IsProtected s t project branch level
    again :
        (e : ApiError) (u w : S)
        → api.protect_branch s project.id branch level ≡ (u, err e)
        → has_message e ("{message: Protected branch '" <> branch <> "' already exists}") ≡ true
        → api.unprotect_branch u project.id branch ≡ (w, ok tt)
        → api.protect_branch w project.id branch level ≡ (t, ok tt)
        → IsProtected s t project branch level

  protected-ok :
      (r : S × Result ApiError (Unit {0})) (t : S)
      → protected api conf r ≡ (t, ok tt)
      → r ≡ (t, ok tt)
  unfolding protected
  protected-ok (s, ok a) t h = ap (λ r. (r.0, ok tt)) h
  protected-ok (s, err e) t h = absurd (ground arith)

  protect_again-IsProtected :
      (s t : S) (project : Project) (branch : String) (level : AccessLevel)
      (reply : S × Result ApiError (Unit {0}))
      → api.protect_branch s project.id branch level ≡ reply
      → protect_again api conf project branch level reply ≡ (t, ok tt)
      → IsProtected s t project branch level
  unfolding protect_again
  protect_again-IsProtected s t project branch level (u, ok a) asked h =
      at_once (asked ∙ ap (λ r. (r.0, ok tt)) h)
  protect_again-IsProtected s t project branch level (u, err e) asked h =
      let text = "{message: Protected branch '" <> branch <> "' already exists}" in
      elim (Bool-cases (has_message e text)) [
        | inr other ↦
            let step : protect_again api conf project branch level (u, err e)
                ≡ protected api conf (u, err e) =
              rw (protect_again, other) refl in
            absurd (ground (arith, protected-ok (u, err e) t (sym step ∙ h)))
        | inl there ↦
            let last = λ (w : S) (_ : Unit {0}).
              protected api conf (api.protect_branch w project.id branch level) in
            let first =
              wrapped "Failed to unprotect branch" (api.unprotect_branch u project.id branch) in
            let step : protect_again api conf project branch level (u, err e)
                ≡ and_then first last =
              rw (protect_again, there) refl in
            let (w, _, freed, closed) = and_then-eq-ok first last (sym step ∙ h) in
            again e u w asked there
              (wrapped-ok "Failed to unprotect branch" (api.unprotect_branch u project.id branch) w
                tt freed)
              (protected-ok (api.protect_branch w project.id branch level) t closed)
      ]

  -- The project has the configured path of its CI file, and then its branch was protected: in a
  -- course with a template the default branch of the fork, to which developers push, and else
  -- master, to which maintainers push.
  pub record IsSecured (s t : S) (project : Project) : Type 0 where
    pub edited : S
    pub configured : api.edit_project s project.id conf.ci_config_path ≡ (edited, ok tt)
    pub of_fork :
        (conf.template_project == "") ≡ false
        → IsProtected edited t project project.default_branch developer
    pub of_new :
        (conf.template_project == "") ≡ true → IsProtected edited t project "master" maintainer

  pub secure_project-IsSecured :
      (s t : S) (project : Project)
      → secure_project api conf s project ≡ (t, ok tt)
      → IsSecured s t project
  unfolding secure_project configure_project protect_branch branch_of use_template_project
  secure_project-IsSecured s t project h =
      let (branch, level) = branch_of api conf project in
      let last = λ (u : S) (_ : Unit {0}). protect_branch api conf u project branch level in
      let (u, _, edited, closed) = and_then-eq-ok (configure_project api conf s project) last h in
      let done = protect_again-IsProtected u t project branch level _ refl closed in
      record {
        edited = u;
        configured =
            wrapped-ok "Failed to configure project"
              (api.edit_project s project.id conf.ci_config_path) u tt edited;
        of_fork = λ template.
            subst (λ (b : String × AccessLevel). IsProtected u t project b.0 b.1)
              (rw (branch_of, template) refl) done;
        of_new = λ plain.
            subst (λ (b : String × AccessLevel). IsProtected u t project b.0 b.1)
              (rw (branch_of, plain) refl) done;
      }

  -- GitLab has taken the first commit, or the file is there, or the branch is closed to the commit.
  abbrev pub IsCommitted : S → S → Project → Type 0
  IsCommitted s t project =
      (api.create_commit s project.id conf.default_readme ≡ (t, ok tt))
      ⊎ ((e : ApiError) × (api.create_commit s project.id conf.default_readme ≡ (t, err e))
          × ((has_message e "{message: A file with this name already exists}"
                || has_message e
                    "{message: 403 Forbidden - You are not allowed to push into this branch}")
              ≡ true))

  readme_committed-IsCommitted :
      (s t : S) (project : Project) (reply : S × Result ApiError (Unit {0}))
      → api.create_commit s project.id conf.default_readme ≡ reply
      → readme_committed api conf reply ≡ (t, ok tt)
      → IsCommitted s t project
  unfolding readme_committed
  readme_committed-IsCommitted s t project (u, ok a) asked h =
      inl (asked ∙ ap (λ r. (r.0, ok tt)) h)
  readme_committed-IsCommitted s t project (u, err e) asked h =
      let tolerated =
        has_message e "{message: A file with this name already exists}"
        || has_message e
            "{message: 403 Forbidden - You are not allowed to push into this branch}" in
      elim (Bool-cases tolerated) [
        | inl fine ↦
            let step : readme_committed api conf (u, err e) ≡ (u, ok tt) =
              rw (readme_committed, fine) refl in
            inr (e, asked ∙ ap (λ r. (r.0, err e)) (sym step ∙ h), fine)
        | inr other ↦ absurd (ground (arith, other))
      ]

  pub create_readme-IsCommitted :
      (s t : S) (project : Project)
      → create_readme api conf s project ≡ (t, ok tt)
      → IsCommitted s t project
  unfolding create_readme
  create_readme-IsCommitted s t project h = readme_committed-IsCommitted s t project _ refl h
