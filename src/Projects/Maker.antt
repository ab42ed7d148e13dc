-- ===== src/Projects/Maker.antt =====
-- internal/gitlab/projects.go: the worker that gives students their repositories.
pub mod Retry
use notmanytuples.Prelude.{ℕ, zero, suc, String, Option, none, some, List, [], ◌∷◌, ◌++◌}
use notmanytuples.Models.{User}
use notmanytuples.Result.{Result, ok, err}
use notmanytuples.Scorer.Errors.{Error}
use notmanytuples.Projects.{Api, InitError, project_not_ready, init_failed, initialize_project}
use notmanytuples.Projects.Names.{GitlabConfig, Cleanup}

-- The table of users.
pub record Users (S : Type 0) : Type 0 where
  pub list_users_without_repos : S → Result Error (List User)
  pub set_user_repository : S → User → S × Result Error (Unit {0})

-- The outcome of an attempt: the user is queued again after a while, or has a repository, or not.
pub data Attempt : Type 0 where
  retry_later : Attempt
  gave_up : Attempt
  initialized : Attempt

-- The worker: the state of the world, and the users that a timer will queue again.
pub record Maker (S : Type 0) : Type 0 where
  pub world : S
  pub delayed : List User

-- What the loop of `Run` selects: a user from the channel, or the tick.
pub data Event : Type 0 where
  user_queued : User → Event
  ticked : Event

module _ {S : Type 0} (api : Api S) (conf : GitlabConfig) (users : Users S) (cleanup : Cleanup)
    (fuel : ℕ) where
  stored : S × Result Error (Unit {0}) → S × Attempt
  stored (s, ok _) = (s, initialized)
  stored (s, err e) = (s, gave_up)

  store_repository : User → S × Result InitError String → S × Attempt
  unfolding stored
  store_repository user (s, err project_not_ready) = (s, retry_later)
  store_repository user (s, err (init_failed e)) = (s, gave_up)
  store_repository user (s, ok url) =
      stored (users.set_user_repository s (record user { repository = some url }))

  settle : User → Option (S × Result InitError String) → Option (S × Attempt)
  unfolding store_repository
  settle user none = none
  settle user (some r) = some (store_repository user r)

  -- `none` is a loop over the members of a project that has not ended within its fuel.
  unfoldable pub maybe_initialize_project : S → User → Option (S × Attempt)
  unfolding settle initialize_project
  maybe_initialize_project s user = elim user.gitlab_id [
    | none ↦ some (s, gave_up)
    | some _ ↦ elim user.gitlab_login [
      | none ↦ some (s, gave_up)
      | some _ ↦ settle user (initialize_project api conf fuel cleanup s user)
    ]
  ]

  after_attempt : Maker S → User → Option (S × Attempt) → Option (Maker S)
  after_attempt m user none = none
  after_attempt m user (some (s, retry_later)) =
      some (record { world = s; delayed = m.delayed ++ user ∷ [] })
  after_attempt m user (some (s, gave_up)) = some (record m { world = s })
  after_attempt m user (some (s, initialized)) = some (record m { world = s })

  handle_user : Maker S → User → Option (Maker S)
  unfolding after_attempt maybe_initialize_project
  handle_user m user = after_attempt m user (maybe_initialize_project m.world user)

  handle_users : List User → Maker S → Option (Maker S)
  unfolding handle_user
  handle_users [] m = some m
  handle_users (user ∷ others) m = elim (handle_user m user) [
    | none ↦ none
    | some next ↦ handle_users others next
  ]

  unfoldable pub initialize_missing_projects : Maker S → Option (Maker S)
  unfolding handle_users
  initialize_missing_projects m = elim (users.list_users_without_repos m.world) [
    | err e ↦ some m
    | ok missing ↦ handle_users missing m
  ]

  unfoldable pub handle : Maker S → Event → Option (Maker S)
  unfolding handle_user initialize_missing_projects
  handle m (user_queued user) = handle_user m user
  handle m ticked = initialize_missing_projects m
