-- ===== src/Robot/Sync/Files.antt =====
-- `inspectChanges`: a request without a mark touches files of its task, and only those.
use notmanytuples.Prelude.{
  String, ◌≡◌, ◌≢◌, ◌⊎◌, refl, inl, inr, Bool, true, false, List, [], ◌∷◌, arith, Bool-cases,
  Option-cases,
}
use notmanytuples.Prelude.Lists.{In}
use notmanytuples.Prelude.Text.{◌<>◌, strip_prefix, has_prefix, strip_prefix_sound}
use notmanytuples.Robot.Branch.{tasks_prefix}
use notmanytuples.Robot.Sync.{Change, Changes, any_outside, inspect_changes}

-- A path under the directory of a task.
pub IsUnder : String → String → Type 0
IsUnder task path = (rest : String) × (path ≡ (tasks_prefix <> task <> "/") <> rest)

has_prefix_sound : (s p : String) → has_prefix s p ≡ true → (t : String) × (s ≡ p <> t)
unfolding has_prefix
has_prefix_sound s p h = elim (Option-cases (strip_prefix p s)) [
  | inl e ↦ absurd (ground arith)
  | inr (t, e) ↦ (t, strip_prefix_sound p s t e)
]

inside :
    (p : String) (changes : List Change)
    → any_outside p changes ≡ false
    → (c : Change) → In c changes
    → (has_prefix c.new_path p ≡ true) × (has_prefix c.old_path p ≡ true)
unfolding any_outside
inside p [] h c m = absurd m
inside p (x ∷ xs) h c m = elim m [
  | inl e ↦ rw e (ground arith, ground arith)
  | inr later ↦ inside p xs (ground arith) c later
]

clean :
    (task : String) (overflow : Bool) (changes : List Change)
    → inspect_changes task (record { overflow = overflow; changes = changes }) ≡ (false, false)
    → (overflow ≡ false)
      × (changes ≢ [])
      × (any_outside (tasks_prefix <> task <> "/") changes ≡ false)
unfolding inspect_changes
clean task true changes h = absurd (ground arith)
clean task false [] h = absurd (ground arith)
clean task false (c ∷ cs) h = (refl, λ e. absurd (ground arith), ground arith)

-- A request that `inspectChanges` marks neither as extra nor as empty has a complete list of
-- changes, at least one, and all of them are renamings or edits within the task's directory.
pub inspect_changes_clean :
    (task : String) (answer : Changes)
    → inspect_changes task answer ≡ (false, false)
    → (answer.overflow ≡ false)
      × (answer.changes ≢ [])
      × ((c : Change) → In c answer.changes → IsUnder task c.new_path × IsUnder task c.old_path)
unfolding IsUnder
inspect_changes_clean task answer h =
    let (complete, some_changes, none_outside) = clean task answer.overflow answer.changes h in
    (
      complete,
      some_changes,
      λ c m.
          let (new, old) = inside (tasks_prefix <> task <> "/") answer.changes none_outside c m in
          (has_prefix_sound c.new_path _ new, has_prefix_sound c.old_path _ old),
    )

-- The list of changes is cut off, or has a change outside of the task's directory.
abbrev pub HasExtra : String → Changes → Type 0
HasExtra task answer =
    (answer.overflow ≡ true)
    ⊎ ((c : Change) × In c answer.changes
        × ((has_prefix c.new_path (tasks_prefix <> task <> "/") ≡ false)
            ⊎ (has_prefix c.old_path (tasks_prefix <> task <> "/") ≡ false)))

any_outside-In :
    (prefix : String) (cs : List Change)
    → any_outside prefix cs ≡ true
    → (c : Change) × In c cs
      × ((has_prefix c.new_path prefix ≡ false) ⊎ (has_prefix c.old_path prefix ≡ false))
unfolding any_outside
any_outside-In prefix [] h = absurd (ground arith)
any_outside-In prefix (c ∷ cs) h = elim (Bool-cases (has_prefix c.new_path prefix)) [
  | inr out ↦ (c, inl refl, inl out)
  | inl new ↦ elim (Bool-cases (has_prefix c.old_path prefix)) [
    | inr out ↦ (c, inl refl, inr out)
    | inl old ↦
        let (d, there, out) = any_outside-In prefix cs (ground (arith, new, old)) in
        (d, inr there, out)
  ]
]

-- A request is marked as extra only if it is.
pub inspect_changes-HasExtra :
    (task : String) (answer : Changes)
    → (inspect_changes task answer).0 ≡ true
    → HasExtra task answer
unfolding inspect_changes
inspect_changes-HasExtra task answer h = elim (Bool-cases answer.overflow) [
  | inl cut ↦ inl cut
  | inr whole ↦
      inr (any_outside-In (tasks_prefix <> task <> "/") answer.changes (ground (arith, whole)))
]

-- A request is marked as empty only if it is.
pub inspect_changes_empty :
    (task : String) (answer : Changes)
    → (inspect_changes task answer).1 ≡ true
    → answer.changes ≡ []
unfolding inspect_changes
inspect_changes_empty task answer h = elim (Bool-cases answer.overflow) [
  | inl cut ↦ absurd (ground (arith, cut))
  | inr whole ↦ ground (arith, whole)
]
