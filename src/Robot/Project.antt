-- ===== src/Robot/Project.antt =====
-- internal/gitlab/merge_requests.go, `syncProject`: the requests of a project, page by page.
pub mod Pages
pub mod References
use notmanytuples.Prelude.{ℕ, zero, suc, String, true, false, Option, none, some, List, [], ◌∷◌}
use notmanytuples.Prelude.Int.{ℤ, int_lt}
use notmanytuples.Result.{Result, ok, err}
use notmanytuples.Scorer.Errors.{Error, wrap_error}
use notmanytuples.Robot.Branch.{parse_task_from_branch, is_submit_branch}
use notmanytuples.Robot.Sync.{ListedRequest, RequestServer, Write, sync_merge_request}

-- A page of requests, each with its source branch.
pub record RequestsPage : Type 0 where
  pub requests : List (String × ListedRequest)
  pub current_page : ℤ
  pub total_pages : ℤ
  pub next_page : ℤ

-- The database with its state `S` and its answer to a write.
module _ {S : Type 0} (store : S → Write → S × Option Error) where
  -- What `syncProject` does after the sync of a request: an error ends the loop.
  go_on : Option (S × Option Error) → (S → Option (S × Option Error)) → Option (S × Option Error)
  go_on none next = none
  go_on (some (t, some e)) next = some (t, some e)
  go_on (some (t, none)) next = next t

  -- The loop over the requests of a page, with their source branches; `fetch` reads one of them
  -- from GitLab.
  sync_page :
      (ListedRequest → RequestServer)
      → String
      → List (String × ListedRequest)
      → S
      → Option (S × Option Error)
  unfolding sync_merge_request go_on
  sync_page fetch project [] s = some (s, none)
  sync_page fetch project ((source_branch, mr) ∷ mrs) s = elim (is_submit_branch source_branch) [
    | false ↦ sync_page fetch project mrs s
    | true ↦
        go_on
          (sync_merge_request store s project (parse_task_from_branch source_branch) mr (fetch mr))
          (λ t. sync_page fetch project mrs t)
  ]

  -- The loop over the pages of requests into the target branch; `none` is a loop that has not
  -- ended within its fuel.
  unfoldable pub sync_project :
      (ListedRequest → RequestServer)
      → (ℤ → Result Error RequestsPage)
      → String
      → ℕ
      → ℤ
      → S
      → Option (S × Option Error)
  unfolding sync_page go_on wrap_error is_submit_branch parse_task_from_branch
  sync_project fetch list_requests project zero page s = none
  sync_project fetch list_requests project (suc fuel) page s = elim (list_requests page) [
    | err e ↦ some (s, some (wrap_error "Failed to list merge requests" e))
    | ok answer ↦ go_on (sync_page fetch project answer.requests s) (λ t.
        elim (int_lt answer.current_page answer.total_pages) [
          | true ↦ sync_project fetch list_requests project fuel answer.next_page t
          | false ↦ some (t, none)
        ])
  ]
