-- ===== src/Tests/Refresh.antt =====
-- A round over two pages of projects, one of which has two pages of pipelines.
use notmanytuples.Prelude.{
  ℕ, zero, suc, ◌≡◌, refl, false, Option, none, some, List, [], ◌∷◌, if◌then◌else◌, string_eq,
  arith,
}
use notmanytuples.Prelude.Int.{ℤ, pos, int_eq}
use notmanytuples.Prelude.Pages.{run_all, joined}
use notmanytuples.Models.{Pipeline}
use notmanytuples.Result.{Result, ok}
use notmanytuples.Scorer.Errors.{Error, failed}
use notmanytuples.Robot.Fresh.{PipelineReply}
use notmanytuples.Robot.Refresh.{Page, ListedProject, fetch_all_pipelines}
use notmanytuples.Robot.Refresh.Pages.{offer_project, fetch_all_pipelines_total}
use notmanytuples.Tests.Robot.{get_fresh}

abbrev ann_project : ListedProject
ann_project = record { id = pos 1; name = "hse-ann" }

abbrev bob_project : ListedProject
bob_project = record { id = pos 2; name = "hse-bob" }

abbrev reply : ℕ → PipelineReply
reply n = record { id = pos n; ref = "submits/sum"; status = "success"; created_at = pos 100 }

abbrev first_of_two : {A : Type 0} → A → Page A
first_of_two x = record { items = x ∷ []; current_page = 1; total_pages = 2; next_page = 2 }

abbrev last_of_two : {A : Type 0} → A → Page A
last_of_two x = record { items = x ∷ []; current_page = 2; total_pages = 2; next_page = 0 }

abbrev list_projects : ℕ → Result Error (Page ListedProject)
list_projects zero = ok (first_of_two ann_project)
list_projects (suc n) = ok (last_of_two bob_project)

abbrev list_pipelines : ℤ → ℕ → Result Error (Page PipelineReply)
list_pipelines id zero =
    ok (if int_eq id (pos 1) then first_of_two (reply 7) else last_of_two (reply 9))
list_pipelines id (suc n) = ok (last_of_two (reply 8))

abbrev pipelines_of : ListedProject → List PipelineReply × List (List PipelineReply)
pipelines_of project =
    if int_eq project.id (pos 1) then (reply 7 ∷ [], (reply 8 ∷ []) ∷ []) else (reply 9 ∷ [], [])

-- The ids of the rows, of which the table refuses one.
abbrev keep_id : List ℤ → Pipeline → List ℤ × Option Error
keep_id ids row =
    if int_eq row.id (pos 8) then (ids, some (failed "constraint failed")) else (row.id ∷ ids, none)

round_ids :
    fetch_all_pipelines list_projects list_pipelines get_fresh keep_id (λ _ _. ("", false)) 3 []
    ≡ some (pos 9 ∷ pos 7 ∷ [], none)
unfolding fetch_all_pipelines
round_ids = refl

fetch_all_pipelines_total_example :
    fetch_all_pipelines list_projects list_pipelines get_fresh keep_id (λ _ _. ("", false)) 3 []
    ≡ some (
      run_all
          (offer_project keep_id (λ _ _. ("", false)) pipelines_of)
          []
          (joined (ann_project ∷ []) ((bob_project ∷ []) ∷ [])),
      none,
    )
fetch_all_pipelines_total_example =
    fetch_all_pipelines_total list_projects list_pipelines get_fresh keep_id (λ _ _. ("", false))
      ((bob_project ∷ []) ∷ []) (ann_project ∷ []) pipelines_of 3 []
      (_, refl, refl, refl, (_, refl, refl, refl)) (omega arith)
      (
        ((_, refl, refl, refl, (_, refl, refl, refl)), omega arith),
        (((_, refl, refl, refl), omega arith), tt),
      )
