-- ===== src/Render/Publish.antt =====
-- internal/render/publish.go: the public tree as one commit on top of the public template.
pub mod Target
use notmanytuples.Prelude.{
  String, Bool, true, false, not, ◌||◌, Option, none, some, List, [], ◌∷◌, if◌then◌else◌, ◌==◌,
  string_eq,
}
use notmanytuples.Prelude.Text.{◌<>◌}
use notmanytuples.Prelude.Paths.{contains}
use notmanytuples.Result.{Result, ok, err, and_then}
use notmanytuples.Scorer.Errors.{Error, failed, nil_pointer, wrap_error}
use notmanytuples.Render.{Source, Globs, or_default}
use notmanytuples.Render.Out.{Disk, Summary, render}

pub record PublishOptions : Type 0 where
  pub target : String
  pub branch : String
  pub message : String
  pub dry_run : Bool
  pub author_name : String
  pub author_email : String

pub record PublishResult : Type 0 where
  pub summary : Summary
  pub diff : String
  pub pushed : Bool

-- The program git in the clone, and in the source, where it tells the revision; the making and the
-- removal of the clone; the formatted time and `strings.TrimSpace`.
pub record Git (S : Type 0) : Type 0 where
  pub run : S → List String → S × Result Error String
  pub source_revision : Result Error String
  pub mkdir_temp : S → S × Result Error (Unit {0})
  pub remove_all : S → S
  pub now : String
  pub trim_space : String → String

-- `errors.Wrap` of a run whose output is not used.
unfoldable pub check_run :
    {S : Type 0} → String → S × Result Error String → S × Result Error (Unit {0})
unfolding wrap_error
check_run message (s, ok output) = (s, ok tt)
check_run message (s, err e) = (s, err (wrap_error message e))

-- `strings.Contains(err.Error(), "exit status 2")`.
abbrev is_no_branch : Error → Bool
is_no_branch (failed message) = contains message "exit status 2"
is_no_branch nil_pointer = false

module _ {F S : Type 0} (globs : Globs) (source : Source F) (disk : Disk S) (git : Git S) where
  default_message : String
  default_message = elim git.source_revision [
    | ok rev ↦ "Publish " <> git.now <> " from " <> git.trim_space rev
    | err _ ↦ "Publish " <> git.now
  ]

  with_defaults : PublishOptions → PublishOptions
  unfolding default_message
  with_defaults opts = record opts {
    branch = or_default opts.branch "main";
    message = or_default opts.message default_message;
    author_name = or_default opts.author_name "notmanytask";
    author_email = or_default opts.author_email "notmanytask@localhost";
  }

  start_branch : S → String → Error → S × Result Error (Unit {0})
  unfolding check_run wrap_error
  start_branch s branch e =
      if not (is_no_branch e)
      then (s, err (wrap_error "Failed to reach the target" e))
      else check_run "Failed to start the branch"
          (git.run s ("checkout" ∷ "--quiet" ∷ "--orphan" ∷ branch ∷ []))

  fetch_branch : S → String → S × Result Error (Unit {0})
  unfolding check_run
  fetch_branch s branch =
      and_then
        (check_run "Failed to fetch the target"
          (git.run s ("fetch" ∷ "--quiet" ∷ "--depth" ∷ "1" ∷ "origin" ∷ branch ∷ [])))
        (λ t _.
          check_run "Failed to check out the target"
            (git.run t ("checkout" ∷ "--quiet" ∷ "-b" ∷ branch ∷ "FETCH_HEAD" ∷ [])))

  find_branch : String → S × Result Error String → S × Result Error (Unit {0})
  unfolding start_branch fetch_branch
  find_branch branch (s, err e) = start_branch s branch e
  find_branch branch (s, ok _) = fetch_branch s branch

  checkout : S → String → String → S × Result Error (Unit {0})
  unfolding check_run find_branch
  checkout s target branch =
      and_then (check_run "Failed to prepare the clone" (git.run s ("init" ∷ "--quiet" ∷ [])))
        (λ t _.
          and_then
            (check_run "Failed to prepare the clone"
              (git.run t ("remote" ∷ "add" ∷ "origin" ∷ target ∷ [])))
            (λ u _.
              find_branch branch
                (git.run u ("ls-remote" ∷ "--exit-code" ∷ "--heads" ∷ "origin" ∷ branch ∷ []))))

  commit : S → PublishOptions → S × Result Error (Unit {0})
  unfolding check_run
  commit s opts = check_run "Failed to commit" (
      git.run s (
        "-c"
        ∷ ("user.name=" <> opts.author_name)
        ∷ "-c"
        ∷ ("user.email=" <> opts.author_email)
        ∷ "commit"
        ∷ "--quiet"
        ∷ "--message"
        ∷ opts.message
        ∷ []))

  push : S → PublishOptions → S × Result Error (Unit {0})
  unfolding check_run
  push s opts =
      check_run "Failed to push"
        (git.run s ("push" ∷ "--quiet" ∷ "origin" ∷ ("HEAD:" <> opts.branch) ∷ []))

  push_commit : S → PublishOptions → PublishResult → S × Result Error PublishResult
  unfolding commit push
  push_commit s opts result =
      and_then (commit s opts)
        (λ t _. and_then (push t opts) (λ u _. (u, ok (record result { pushed = true }))))

  commit_and_push : S → PublishOptions → Summary → String → S × Result Error PublishResult
  unfolding push_commit
  commit_and_push s opts summary diff =
      let result : PublishResult = record { summary = summary; diff = diff; pushed = false } in
      if git.trim_space diff == "" || opts.dry_run
      then (s, ok result)
      else push_commit s opts result

  publish_clone : S → PublishOptions → S × Result Error PublishResult
  unfolding checkout commit_and_push
  publish_clone s opts = and_then (checkout s opts.target opts.branch) (λ s₁ _.
      and_then (render globs source disk s₁) (λ s₂ summary.
        and_then (git.run s₂ ("add" ∷ "--all" ∷ [])) (λ s₃ _.
          and_then (git.run s₃ ("diff" ∷ "--cached" ∷ "--stat" ∷ []))
            (λ s₄ diff. commit_and_push s₄ opts summary diff))))

  -- The deferred removal of the clone.
  drop_clone : S × Result Error PublishResult → S × Result Error PublishResult
  drop_clone (s, r) = (git.remove_all s, r)

  unfoldable pub publish : S → PublishOptions → S × Result Error PublishResult
  unfolding with_defaults publish_clone drop_clone
  publish s opts =
      and_then (git.mkdir_temp s) (λ t _. drop_clone (publish_clone t (with_defaults opts)))
