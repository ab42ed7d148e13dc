-- ===== src/Render/Publish/Target.antt =====
-- When `Publish` leaves the public template as it is.
use notmanytuples.Prelude.{
  String, ◌≡◌, ◌⊎◌, refl, sym, inl, inr, ◌∙◌, ap, Bool, true, false, ◌||◌, List, [], ◌∷◌, ◌==◌,
  string_eq, Bool-cases, arith,
}
use notmanytuples.Result.{Result, ok, err, and_then, and_then-eq-ok}
use notmanytuples.Scorer.Errors.{Error}
use notmanytuples.Render.{Source, Globs}
use notmanytuples.Render.Out.{Disk, Summary, read_source, render}
use notmanytuples.Render.Out.Keeps.{Keeps, and_then-elim, and_then-keeps, render-keeps}
use notmanytuples.Render.Publish.{
  PublishOptions, PublishResult, Git, check_run, start_branch, fetch_branch, find_branch, checkout,
  commit, push, push_commit, commit_and_push, publish_clone, drop_clone, with_defaults, publish,
  is_no_branch,
}

abbrev pub is_push : List String → Bool
is_push [] = false
is_push (command ∷ args) = command == "push"

-- Only `git push` changes the target: no other call does.
pub record KeepsTarget {S R : Type 0} (disk : Disk S) (git : Git S) (target : S → R) : Type 0 where
  pub run :
      (s : S) (args : List String) → is_push args ≡ false → target (git.run s args).0 ≡ target s
  pub mkdir_temp : (s : S) → target (git.mkdir_temp s).0 ≡ target s
  pub remove_all : (s : S) → target (git.remove_all s) ≡ target s
  pub output : Keeps disk target

check_run-keeps :
    {S R : Type 0} (target : S → R) (message : String) (r : S × Result Error String)
    → target (check_run message r).0 ≡ target r.0
unfolding check_run
check_run-keeps target message (s, ok x) = refl
check_run-keeps target message (s, err e) = refl

-- A run that shall not publish: it is dry, the source is not fit to be exported, or the run ends
-- well without a push.
abbrev pub IsQuiet :
    {F S : Type 0}
    → Globs
    → Source F
    → Disk S
    → PublishOptions
    → S × Result Error PublishResult
    → Type 0
IsQuiet globs source disk opts r =
    ((opts.dry_run ≡ true) ⊎ ((e : Error) × (read_source globs source disk ≡ err e)))
    ⊎ ((result : PublishResult) × (r.1 ≡ ok result) × (result.pushed ≡ false))

module _ {F S R : Type 0} (globs : Globs) (source : Source F) (disk : Disk S) (git : Git S)
    (target : S → R) (keeps : KeepsTarget disk git target) (held : R) where
  run-keeps :
      (s : S) (message : String) (args : List String)
      → is_push args ≡ false
      → target s ≡ held
      → target (check_run message (git.run s args)).0 ≡ held
  run-keeps s message args quiet h =
      check_run-keeps target message (git.run s args) ∙ keeps.run s args quiet ∙ h

  find_branch-keeps :
      (branch : String) (r : S × Result Error String)
      → target r.0 ≡ held
      → target (find_branch globs source disk git branch r).0 ≡ held
  unfolding find_branch start_branch fetch_branch
  find_branch-keeps branch (s, err e) h = elim (Bool-cases (is_no_branch e)) [
    | inr real ↦ rw (find_branch, start_branch, real) h
    | inl absent ↦ rw (find_branch, start_branch, absent) (run-keeps s _ _ (ground arith) h)
  ]
  find_branch-keeps branch (s, ok x) h =
      and_then-keeps target held
        (check_run "Failed to fetch the target"
          (git.run s ("fetch" ∷ "--quiet" ∷ "--depth" ∷ "1" ∷ "origin" ∷ branch ∷ [])))
        _ (run-keeps s _ _ refl h) (λ t _ same. run-keeps t _ _ refl same)

  checkout-keeps :
      (s : S) (url branch : String)
      → target s ≡ held
      → target (checkout globs source disk git s url branch).0 ≡ held
  unfolding checkout
  checkout-keeps s url branch h =
      and_then-keeps target held
        (check_run "Failed to prepare the clone" (git.run s ("init" ∷ "--quiet" ∷ []))) _
        (run-keeps s _ _ refl h)
        (λ t _ same.
          and_then-keeps target held
            (check_run "Failed to prepare the clone"
              (git.run t ("remote" ∷ "add" ∷ "origin" ∷ url ∷ [])))
            _ (run-keeps t _ _ refl same)
            (λ u _ last. find_branch-keeps branch _ (keeps.run u _ refl ∙ last)))

  -- What a quiet run keeps, where the source may be fit to be exported.
  IsKept : PublishOptions → S × Result Error PublishResult → Type 0
  IsKept opts r =
      (opts.dry_run ≡ true)
        ⊎ ((result : PublishResult) × (r.1 ≡ ok result) × (result.pushed ≡ false))
      → target r.0 ≡ held

  push_commit_pushed :
      (s : S) (opts : PublishOptions) (result : PublishResult) (t : S) (x : PublishResult)
      → push_commit globs source disk git s opts result ≡ (t, ok x)
      → x.pushed ≡ true
  unfolding push_commit
  push_commit_pushed s opts result t x h =
      let (u, _, committed, rest) =
        and_then-eq-ok (commit globs source disk git s opts)
          (λ t _.
            and_then (push globs source disk git t opts)
              (λ u _. (u, ok (record result { pushed = true }))))
          h in
      let (v, _, pushed, last) =
        and_then-eq-ok (push globs source disk git u opts)
          (λ u _. (u, ok (record result { pushed = true }))) rest in
      let same : record result { pushed = true } ≡ x =
        ap (λ r. elim r.1 [ ok y ↦ y | err _ ↦ x ]) last in
      sym (ap (λ (r : PublishResult). r.pushed) same)

  push_commit-IsKept :
      (s : S) (opts : PublishOptions) (result : PublishResult)
      → target s ≡ held
      → opts.dry_run ≡ false
      → IsKept opts (push_commit globs source disk git s opts result)
  unfolding IsKept push_commit
  push_commit-IsKept s opts result h real (inl dry) = absurd (ground arith)
  push_commit-IsKept s opts result h real (inr (x, ended, unpushed)) = absurd (
      ground (
        arith,
        push_commit_pushed s opts result _ x
            (λ i. ((push_commit globs source disk git s opts result).0, ended i)),
      ))

  commit_and_push-IsKept :
      (s : S) (opts : PublishOptions) (summary : Summary) (diff : String)
      → target s ≡ held
      → IsKept opts (commit_and_push globs source disk git s opts summary diff)
  unfolding commit_and_push IsKept
  commit_and_push-IsKept s opts summary diff h =
      elim (Bool-cases (git.trim_space diff == "" || opts.dry_run)) [
        | inl stop ↦ rw (commit_and_push, stop) (λ _. h)
        | inr go ↦
            rw (commit_and_push, go)
              (push_commit-IsKept s opts (record { summary = summary; diff = diff; pushed = false })
                h (ground arith))
      ]

  publish_clone-IsKept :
      (s : S) (opts : PublishOptions)
      → target s ≡ held
      → IsKept opts (publish_clone globs source disk git s opts)
  unfolding publish_clone IsKept
  publish_clone-IsKept s opts h =
      let stop : (t : S) (e : Error) → target t ≡ held → IsKept opts (t, err e) =
        λ t e same _. same in
      and_then-elim target held (IsKept opts)
        (checkout globs source disk git s opts.target opts.branch) _
        (checkout-keeps s opts.target opts.branch h) stop
        (λ s₁ _ h₁.
          and_then-elim target held (IsKept opts) (render globs source disk s₁) _
            (render-keeps globs source disk target keeps.output held s₁ h₁) stop
            (λ s₂ summary h₂.
              and_then-elim target held (IsKept opts) (git.run s₂ ("add" ∷ "--all" ∷ [])) _
                (keeps.run s₂ _ refl ∙ h₂) stop
                (λ s₃ _ h₃.
                  and_then-elim target held (IsKept opts)
                    (git.run s₃ ("diff" ∷ "--cached" ∷ "--stat" ∷ [])) _ (keeps.run s₃ _ refl ∙ h₃)
                    stop (λ s₄ diff h₄. commit_and_push-IsKept s₄ opts summary diff h₄))))

  publish_clone_refused :
      (s : S) (opts : PublishOptions) (e : Error)
      → target s ≡ held
      → read_source globs source disk ≡ err e
      → target (publish_clone globs source disk git s opts).0 ≡ held
  unfolding publish_clone render
  publish_clone_refused s opts e h bad =
      and_then-keeps target held (checkout globs source disk git s opts.target opts.branch) _
        (checkout-keeps s opts.target opts.branch h) (λ s₁ _ h₁. rw (bad, render) h₁)

  drop_clone-keeps :
      (r : S × Result Error PublishResult)
      → target r.0 ≡ held
      → target (drop_clone globs source disk git r).0 ≡ held
  unfolding drop_clone
  drop_clone-keeps (s, r) h = keeps.remove_all s ∙ h

-- A run of `Publish` leaves the target as it was if it is dry, if the source is not fit to be
-- exported (it has a leak, or its plan fails), or if it ends well without a push. Of the calls of
-- the packages os and exec this takes that only `git push` changes the target.
pub publish_quiet :
    {F S R : Type 0} (globs : Globs) (source : Source F) (disk : Disk S) (git : Git S)
    (target : S → R) (keeps : KeepsTarget disk git target) (s : S) (opts : PublishOptions)
    → IsQuiet globs source disk opts (publish globs source disk git s opts)
    → target (publish globs source disk git s opts).0 ≡ target s
unfolding publish with_defaults drop_clone IsKept
publish_quiet globs source disk git target keeps s opts quiet =
    and_then-elim target (target s) (λ r. IsQuiet globs source disk opts r → target r.0 ≡ target s)
      (git.mkdir_temp s)
      (λ t _.
        drop_clone globs source disk git
          (publish_clone globs source disk git t (with_defaults globs source disk git opts)))
      (keeps.mkdir_temp s) (λ t e same _. same)
      (λ t _ same still.
        drop_clone-keeps globs source disk git target keeps (target s)
          (publish_clone globs source disk git t (with_defaults globs source disk git opts))
          (elim still [
            | inl (inr (e, bad)) ↦
                publish_clone_refused globs source disk git target keeps (target s) t _ e same bad
            | inl (inl dry) ↦
                publish_clone-IsKept globs source disk git target keeps (target s) t _ same
                  (inl dry)
            | inr ended ↦
                publish_clone-IsKept globs source disk git target keeps (target s) t _ same
                  (inr ended)
          ]))
      quiet
