-- ===== src/Robot/Project/Pages.antt =====
-- The sync of a project's requests ends, and misses none.
use notmanytuples.Prelude.{
  ℕ, zero, suc, Bool, ◌<◌, ◌≡◌, refl, inl, inr, true, false, String, Option, none, some, List, [],
  ◌∷◌, Bool-cases, arith,
}
use notmanytuples.Prelude.Int.{ℤ, int_lt}
use notmanytuples.Prelude.Lists.{All, keep}
use notmanytuples.Prelude.Pages.{
  page_count, joined, run_all, run_all-append, All-append, keep-append,
}
use notmanytuples.Result.{Result, ok}
use notmanytuples.Scorer.Errors.{Error}
use notmanytuples.Robot.Branch.{parse_task_from_branch, is_submit_branch}
use notmanytuples.Robot.Sync.{ListedRequest, RequestServer, Write, sync_merge_request}
use notmanytuples.Robot.Project.{RequestsPage, go_on, sync_page, sync_project}

-- A request, with its source branch.
abbrev pub Listed : Type 0
Listed = String × ListedRequest

-- From page `page` on there are the requests `first` and those of `pages`, page by page, and the
-- last page says so.
abbrev pub Answers : (ℤ → Result Error RequestsPage) → List Listed → List (List Listed) → ℤ → Type 0
Answers ask first [] page =
    (answer : RequestsPage) × (ask page ≡ ok answer)
    × (answer.requests ≡ first)
    × (int_lt answer.current_page answer.total_pages ≡ false)
Answers ask first (next ∷ pages) page =
    (answer : RequestsPage) × (ask page ≡ ok answer)
    × (answer.requests ≡ first)
    × (int_lt answer.current_page answer.total_pages ≡ true)
    × Answers ask next pages answer.next_page

-- The request is one of a submit branch.
abbrev pub is_submitted : Listed → Bool
is_submitted r = is_submit_branch r.0

module _ {S : Type 0} (store : S → Write → S × Option Error) (fetch : ListedRequest → RequestServer)
    (project : String) (after : S → Listed → S) where
  -- The sync of the request, if it is one of a submit branch, ends well.
  abbrev pub Syncs : Listed → Type 0
  Syncs r =
      is_submitted r ≡ true
      → (s : S)
      → sync_merge_request store s project (parse_task_from_branch r.0) r.1 (fetch r.1)
        ≡ some (after s r, none)

  sync_page_total :
      (requests : List Listed) (s : S)
      → All Syncs requests
      → sync_page store fetch project requests s
        ≡ some (run_all after s (keep is_submitted requests), none)
  unfolding sync_page go_on
  sync_page_total [] s fine = refl
  sync_page_total ((source_branch, mr) ∷ requests) s fine =
      elim (Bool-cases (is_submit_branch source_branch)) [
        | inl yes_submit ↦
            rw (sync_page, yes_submit, fine.0 yes_submit s)
              (sync_page_total requests (after s (source_branch, mr)) fine.1)
        | inr other ↦ rw (sync_page, other) (sync_page_total requests s fine.1)
      ]

  -- Where the pages of a project's requests end and the sync of each request of a submit branch
  -- ends well, the sync of the project ends within a round for each page and without an error, and
  -- has synced exactly the requests of submit branches, of every page and in GitLab's order.
  pub sync_project_total :
      (ask : ℤ → Result Error RequestsPage) (pages : List (List Listed)) (first : List Listed)
      (fuel : ℕ) (page : ℤ) (s : S)
      → Answers ask first pages page
      → page_count pages < fuel
      → All Syncs (joined first pages)
      → sync_project store fetch ask project fuel page s
        ≡ some (run_all after s (keep is_submitted (joined first pages)), none)
  unfolding sync_project go_on
  sync_project_total ask pages first zero page s answers enough fine = absurd (omega arith)
  sync_project_total ask [] first (suc fuel) page s (answer, listed, same, last) enough fine =
      rw (sync_project, listed, same, sync_page_total first s fine, last) refl
  sync_project_total ask (next ∷ pages) first (suc fuel) page s (answer, listed, same, more, rest)
        enough fine =
      let (here, there) = All-append Syncs first (joined next pages) fine in
      let t = run_all after s (keep is_submitted first) in
      let later =
        sync_project_total ask pages next fuel answer.next_page t rest (omega arith) there in
      rw
        (
          sync_project,
          listed,
          same,
          sync_page_total first s here,
          go_on,
          more,
          later,
          keep-append is_submitted first (joined next pages),
          run_all-append after s (keep is_submitted first) (keep is_submitted (joined next pages)),
        )
        refl
