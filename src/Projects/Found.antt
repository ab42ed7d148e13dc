-- ===== src/Projects/Found.antt =====
-- How `InitializeProject` finds or makes the project and its member.
use notmanytuples.Prelude.{
  ℕ, String, ◌≡◌, ◌⊎◌, refl, sym, ap, ◌∙◌, inl, inr, Bool, true, false, Option, none, some, ◌==◌,
  string_eq, eqb, Bool-cases, arith,
}
use notmanytuples.Prelude.Int.{ℤ}
use notmanytuples.Result.{Result, ok, err}
use notmanytuples.Scorer.Errors.{Error}
use notmanytuples.Projects.{
  Api, Project, Lookup, existing, missing, developer, wrapped, use_template_project, create_missing,
  find_or_create_project, find_member, add_project_member,
}
use notmanytuples.Projects.Names.{GitlabConfig, make_project_with_namespace}
use notmanytuples.Projects.Secured.{wrapped-ok}

module _ {S : Type 0} (api : Api S) (conf : GitlabConfig) where
  -- The user is one of the project's members, as the loop over them says, or GitLab has added him.
  abbrev pub IsMember : ℕ → S → S → Project → ℤ → Type 0
  IsMember fuel s t project user =
      ((find_member api conf fuel s project.id user 0 ≡ some (ok true)) × (s ≡ t))
      ⊎ ((find_member api conf fuel s project.id user 0 ≡ some (ok false))
          × (api.add_member s project.id user developer ≡ (t, ok tt)))

  found-IsMember :
      (fuel : ℕ) (s t : S) (project : Project) (user : ℤ) (found : Option (Result Error Bool))
      → find_member api conf fuel s project.id user 0 ≡ found
      → add_project_member api conf fuel s project user ≡ some (t, ok tt)
      → IsMember fuel s t project user
  unfolding add_project_member
  found-IsMember fuel s t project user none asked h = absurd (ground (arith, asked))
  found-IsMember fuel s t project user (some (err e)) asked h = absurd (ground (arith, asked))
  found-IsMember fuel s t project user (some (ok true)) asked h =
      let step : add_project_member api conf fuel s project user ≡ some (s, ok tt) =
        rw (add_project_member, asked) refl in
      inl (asked, ap (λ o. elim o [ none ↦ s | some r ↦ r.0 ]) (sym step ∙ h))
  found-IsMember fuel s t project user (some (ok false)) asked h =
      let message : String = "Failed to add user to the project" in
      let added = api.add_member s project.id user developer in
      let step : add_project_member api conf fuel s project user ≡ some (wrapped message added) =
        rw (add_project_member, asked) refl in
      inr (
        asked,
        wrapped-ok message added t tt
            (ap (λ o. elim o [ none ↦ wrapped message added | some r ↦ r ]) (sym step ∙ h)),
      )

  pub add_project_member-IsMember :
      (fuel : ℕ) (s t : S) (project : Project) (user : ℤ)
      → add_project_member api conf fuel s project user ≡ some (t, ok tt)
      → IsMember fuel s t project user
  add_project_member-IsMember fuel s t project user h =
      found-IsMember fuel s t project user _ refl h

  -- GitLab knows the project, or says that there is none and then has forked the template, or made
  -- an empty project where there is no template.
  pub data IsFound (s t : S) (name : String) (project : Project) : Type 0 where
    known :
        api.get_project s (make_project_with_namespace conf name) ≡ existing project
        → s ≡ t
        → IsFound s t name project
    forked :
        (e : Error)
        → api.get_project s (make_project_with_namespace conf name) ≡ missing (some 404) e
        → (conf.template_project == "") ≡ false
        → api.fork_project s conf.template_project name ≡ (t, ok project)
        → IsFound s t name project
    created :
        (e : Error)
        → api.get_project s (make_project_with_namespace conf name) ≡ missing (some 404) e
        → (conf.template_project == "") ≡ true
        → api.create_project s name ≡ (t, ok project)
        → IsFound s t name project

  answered-IsFound :
      (s t : S) (name : String) (project : Project) (answer : Lookup)
      → api.get_project s (make_project_with_namespace conf name) ≡ answer
      → find_or_create_project api conf s name ≡ (t, ok project)
      → IsFound s t name project
  unfolding find_or_create_project create_missing use_template_project
  answered-IsFound s t name project (existing p) asked h =
      let step : find_or_create_project api conf s name ≡ (s, ok p) =
        rw (find_or_create_project, asked) refl in
      let same = sym step ∙ h in
      known (asked ∙ ap existing (ap (λ r. elim r.1 [ ok y ↦ y | err _ ↦ p ]) same))
        (ap (λ r. r.0) same)
  answered-IsFound s t name project (missing none e) asked h = absurd (ground (arith, asked))
  answered-IsFound s t name project (missing (some code) e) asked h =
      elim (Bool-cases (eqb code 404)) [
        | inr other ↦ absurd (ground (arith, asked, other))
        | inl absent ↦
            let not_found : api.get_project s (make_project_with_namespace conf name)
                ≡ missing (some 404) e =
              asked ∙ ap (λ c. missing (some c) e) (ground (arith, absent)) in
            let step : find_or_create_project api conf s name ≡ create_missing api conf s name =
              rw (find_or_create_project, asked, absent) refl in
            elim (Bool-cases (conf.template_project == "")) [
              | inl plain ↦
                  let message : String = "Failed to create project" in
                  let made : create_missing api conf s name
                      ≡ wrapped message (api.create_project s name) =
                    rw (create_missing, plain) refl in
                  created e not_found plain (
                    wrapped-ok message (api.create_project s name) t project
                      (sym (step ∙ made) ∙ h))
              | inr template ↦
                  let message : String = "Failed to fork template project" in
                  let made : create_missing api conf s name
                      ≡ wrapped message (api.fork_project s conf.template_project name) =
                    rw (create_missing, template) refl in
                  forked e not_found template (
                    wrapped-ok message (api.fork_project s conf.template_project name) t project
                      (sym (step ∙ made) ∙ h))
            ]
      ]

  pub find_or_create_project-IsFound :
      (s t : S) (name : String) (project : Project)
      → find_or_create_project api conf s name ≡ (t, ok project)
      → IsFound s t name project
  find_or_create_project-IsFound s t name project h = answered-IsFound s t name project _ refl h
