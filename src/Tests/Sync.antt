-- ===== src/Tests/Sync.antt =====
-- The sync of a project with two pages of requests, one of them from a branch that submits nothing.
use notmanytuples.Prelude.{Option, zero, suc, ◌≡◌, refl, none, some, List, [], ◌∷◌, arith}
use notmanytuples.Prelude.Int.{ℤ, pos, negsuc}
use notmanytuples.Prelude.Lists.{keep}
use notmanytuples.Prelude.Pages.{run_all, joined}
use notmanytuples.Prelude.Text.{has_prefix, strip_prefix}
use notmanytuples.Result.{Result, ok, err}
use notmanytuples.Scorer.Errors.{Error, failed, wrap}
use notmanytuples.Robot.Branch.{parse_task_from_branch, is_submit_branch}
use notmanytuples.Robot.Sync.{Write, add_pipeline, upsert_merge_request, sync_merge_request}
use notmanytuples.Robot.Sync.Rows.{log}
use notmanytuples.Robot.Project.{RequestsPage, sync_project}
use notmanytuples.Robot.Sync.References.{Rows}
use notmanytuples.Robot.Project.Pages.{Listed, is_submitted, sync_project_total}
use notmanytuples.Tests.Robot.{listed, server}

abbrev ask : ℤ → Result Error RequestsPage
ask (pos zero) = ok (record {
  requests = ("feature", listed) ∷ ("submits/sum", listed) ∷ [];
  current_page = pos 1;
  total_pages = pos 2;
  next_page = pos 2;
})
ask (pos (suc n)) = ok (record {
  requests = ("submits/race", listed) ∷ [];
  current_page = pos 2;
  total_pages = pos 2;
  next_page = pos 0;
})
ask (negsuc n) = err (failed "400")

-- The writes so far, and those of a request.
abbrev synced : List Write → Listed → List Write
synced writes (source_branch, mr) =
    elim (sync_merge_request log writes "hse-ann" (parse_task_from_branch source_branch) mr
      server) [ none ↦ writes | some (t, e) ↦ t ]

sync_project_total_example :
    sync_project log (λ _. server) ask "hse-ann" 2 (pos 0) []
    ≡ some (
      run_all synced [] (
          keep is_submitted (
            joined
              (("feature", listed) ∷ ("submits/sum", listed) ∷ [])
              ((("submits/race", listed) ∷ []) ∷ []))),
      none,
    )
unfolding is_submit_branch parse_task_from_branch has_prefix strip_prefix sync_merge_request wrap
sync_project_total_example =
    sync_project_total log (λ _. server) "hse-ann" synced ask ((("submits/race", listed) ∷ []) ∷ [])
      (("feature", listed) ∷ ("submits/sum", listed) ∷ []) 2 (pos 0) []
      (_, refl, refl, refl, (_, refl, refl, refl)) (omega arith)
      ((λ h. absurd (ground (arith, h))), ((λ h s. refl), ((λ h s. refl), tt)))

-- Pipelines are taken, and requests refused.
abbrev busy : Rows → Write → Option Error
busy rows (add_pipeline p) = none
busy rows (upsert_merge_request mr) = some (failed "locked")

abbrev left_rows : Rows
left_rows = record {
  pipelines =
      record {
        id = pos 9;
        project = "hse-ann";
        task = "sum";
        status = "success";
        started_at = pos 200;
      }
      ∷ [];
  merge_requests = [];
}
