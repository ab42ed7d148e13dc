-- ===== src/Robot/Refresh.antt =====
-- internal/gitlab/pipelines.go and gitlab.go: the round over every pipeline of every project of the
-- course.
pub mod Pages
use notmanytuples.Prelude.{
  ℕ, zero, suc, String, Bool, not, Option, none, some, List, [], ◌∷◌, ltb, if◌then◌else◌,
}
use notmanytuples.Prelude.Int.{ℤ}
use notmanytuples.Models.{Pipeline}
use notmanytuples.Result.{Result, ok, err}
use notmanytuples.Scorer.Errors.{Error}
use notmanytuples.Robot.Fresh.{PipelineReply, TaskLookup, add_fresh_row}

-- A page of GitLab's answer, with what its header says.
pub record Page (A : Type 0) : Type 0 where
  pub items : List A
  pub current_page : ℕ
  pub total_pages : ℕ
  pub next_page : ℕ

-- A project as GitLab lists it.
pub record ListedProject : Type 0 where
  pub id : ℤ
  pub name : String

-- The calls of a callback on the projects of a page, up to the first one that fails.
module _ {S : Type 0} (callback : S → ListedProject → Option (S × Option Error)) where
  unfoldable pub visit : S → List ListedProject → Option (S × Option Error)
  visit s [] = some (s, none)
  visit s (project ∷ projects) = elim (callback s project) [
    | none ↦ none
    | some (t, some e) ↦ some (t, some e)
    | some (t, none) ↦ visit t projects
  ]

  -- `none` is a loop that has not ended within its fuel.
  unfoldable pub for_each_project :
      (list_projects : ℕ → Result Error (Page ListedProject))
      → (fuel : ℕ) → S
      → ℕ
      → Option (S × Option Error)
  unfolding visit
  for_each_project list_projects zero s page = none
  for_each_project list_projects (suc fuel) s page = elim (list_projects page) [
    | err e ↦ some (s, some e)
    | ok answer ↦ elim (visit s answer.items) [
      | none ↦ none
      | some (t, some e) ↦ some (t, some e)
      | some (t, none) ↦
          let rest = for_each_project list_projects fuel t answer.next_page in
          if not (ltb answer.current_page answer.total_pages) then some (t, none) else rest
    ]
  ]

-- GitLab's pages, the database with its state `S`, and its table of requests.
module _ {S : Type 0} (list_projects : ℕ → Result Error (Page ListedProject))
    (list_pipelines : ℤ → ℕ → Result Error (Page PipelineReply))
    (get_pipeline : String → ℤ → Result Error PipelineReply)
    (store : S → Pipeline → S × Option Error) (merge_request_task : TaskLookup) where
  -- An error is logged, and the loop goes on.
  unfoldable pub add_pipelines : S → String → List PipelineReply → S
  unfolding add_fresh_row
  add_pipelines s project [] = s
  add_pipelines s project (reply ∷ replies) =
      add_pipelines (add_fresh_row get_pipeline store merge_request_task s project reply).0 project
        replies

  unfoldable pub fetch_project : (fuel : ℕ) → ℕ → S → ListedProject → Option (S × Option Error)
  unfolding add_pipelines
  fetch_project zero page s project = none
  fetch_project (suc fuel) page s project = elim (list_pipelines project.id page) [
    | err e ↦ some (s, some e)
    | ok answer ↦
        let t = add_pipelines s project.name answer.items in
        let rest = fetch_project fuel answer.next_page t project in
        if not (ltb answer.current_page answer.total_pages) then some (t, none) else rest
  ]

  unfoldable pub fetch_all_pipelines : (fuel : ℕ) → S → Option (S × Option Error)
  unfolding for_each_project fetch_project
  fetch_all_pipelines fuel s = for_each_project (fetch_project fuel 0) list_projects fuel s 0
