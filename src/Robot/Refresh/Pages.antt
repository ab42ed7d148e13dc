-- ===== src/Robot/Refresh/Pages.antt =====
-- A round over the pipelines ends, and misses none.
use notmanytuples.Prelude.{
  ℕ, zero, suc, ◌<◌, ◌≡◌, refl, sym, ap, true, false, String, Option, none, some, List, [], ◌∷◌,
  ltb, arith,
}
use notmanytuples.Prelude.Int.{ℤ}
use notmanytuples.Prelude.Lists.{All, All-map}
use notmanytuples.Prelude.Pages.{page_count, joined, run_all, run_all-append, All-append}
use notmanytuples.Models.{Pipeline}
use notmanytuples.Result.{Result, ok}
use notmanytuples.Scorer.Errors.{Error}
use notmanytuples.Robot.Fresh.{PipelineReply, TaskLookup, task_of_ref, add_fresh_row}
use notmanytuples.Robot.Refresh.{
  Page, ListedProject, visit, for_each_project, add_pipelines, fetch_project, fetch_all_pipelines,
}

module _ {A : Type 0} where
  -- From page `page` on there are the items `first` and those of `pages`, page by page, and the last
  -- page says so.
  abbrev pub Answers : (ℕ → Result Error (Page A)) → List A → List (List A) → ℕ → Type 0
  Answers ask first [] page =
      (answer : Page A) × (ask page ≡ ok answer)
      × (answer.items ≡ first)
      × (ltb answer.current_page answer.total_pages ≡ false)
  Answers ask first (next ∷ pages) page =
      (answer : Page A) × (ask page ≡ ok answer)
      × (answer.items ≡ first)
      × (ltb answer.current_page answer.total_pages ≡ true)
      × Answers ask next pages answer.next_page

-- The row of a pipeline.
abbrev pub row_of : TaskLookup → String → PipelineReply → Pipeline
row_of merge_request_task project reply = record {
  id = reply.id;
  project = project;
  task = task_of_ref merge_request_task project reply.ref;
  status = reply.status;
  started_at = reply.created_at;
}

module _ {S : Type 0} (callback : S → ListedProject → Option (S × Option Error))
    (after : S → ListedProject → S) where
  -- The callback succeeds on the project.
  abbrev pub Succeeds : ListedProject → Type 0
  Succeeds project = (s : S) → callback s project ≡ some (after s project, none)

  visit_total :
      (projects : List ListedProject) (s : S)
      → All Succeeds projects
      → visit callback s projects ≡ some (run_all after s projects, none)
  unfolding visit
  visit_total [] s fine = refl
  visit_total (project ∷ projects) s fine =
      rw (visit, fine.0 s) (visit_total projects (after s project) fine.1)

  for_each_project_total :
      (list_projects : ℕ → Result Error (Page ListedProject)) (pages : List (List ListedProject))
      (first : List ListedProject) (fuel : ℕ) (s : S) (page : ℕ)
      → Answers list_projects first pages page
      → page_count pages < fuel
      → All Succeeds (joined first pages)
      → for_each_project callback list_projects fuel s page
        ≡ some (run_all after s (joined first pages), none)
  unfolding for_each_project
  for_each_project_total ask pages first zero s page answers enough fine = absurd (omega arith)
  for_each_project_total ask [] first (suc fuel) s page (answer, listed, same, last) enough fine =
      rw (for_each_project, listed, same, visit_total first s fine, last) refl
  for_each_project_total ask (next ∷ pages) first (suc fuel) s page
        (answer, listed, same, more, rest) enough fine =
      let (here, there) = All-append Succeeds first (joined next pages) fine in
      let later =
        for_each_project_total ask pages next fuel (run_all after s first) answer.next_page rest
          (omega arith) there in
      rw (for_each_project, listed, same, visit_total first s here, more, later)
        (ap (λ t. some (t, none)) (sym (run_all-append after s first (joined next pages))))

-- GitLab answers every page of the project's pipelines, and the fuel is enough for them.
abbrev pub IsListed :
    (ℤ → ℕ → Result Error (Page PipelineReply))
    → ℕ
    → (ListedProject → List PipelineReply × List (List PipelineReply))
    → ListedProject
    → Type 0
IsListed list_pipelines fuel pipelines_of project =
    let (first, pages) = pipelines_of project in
    Answers (list_pipelines project.id) first pages 0 × (page_count pages < fuel)

module _ {S : Type 0} (store : S → Pipeline → S × Option Error)
    (merge_request_task : TaskLookup) where
  -- The state after the row of a pipeline is offered, whether the table takes it or not.
  abbrev pub offer : String → S → PipelineReply → S
  offer name s reply = (store s (row_of merge_request_task name reply)).0

  -- The state after the rows of all pipelines of a project are offered.
  abbrev pub offer_project :
      (ListedProject → List PipelineReply × List (List PipelineReply)) → S → ListedProject → S
  offer_project pipelines_of s project =
      let (first, pages) = pipelines_of project in
      run_all (offer project.name) s (joined first pages)

module _ {S : Type 0} (list_projects : ℕ → Result Error (Page ListedProject))
    (list_pipelines : ℤ → ℕ → Result Error (Page PipelineReply))
    (get_pipeline : String → ℤ → Result Error PipelineReply)
    (store : S → Pipeline → S × Option Error) (merge_request_task : TaskLookup) where
  add_pipelines-eq :
      (name : String) (replies : List PipelineReply) (s : S)
      → add_pipelines list_projects list_pipelines get_pipeline store merge_request_task s name
          replies
        ≡ run_all (offer store merge_request_task name) s replies
  unfolding add_pipelines add_fresh_row
  add_pipelines-eq name [] s = refl
  add_pipelines-eq name (reply ∷ replies) s =
      add_pipelines-eq name replies (offer store merge_request_task name s reply)

  fetch_project_total :
      (project : ListedProject) (pages : List (List PipelineReply)) (first : List PipelineReply)
      (fuel : ℕ) (s : S) (page : ℕ)
      → Answers (list_pipelines project.id) first pages page
      → page_count pages < fuel
      → fetch_project list_projects list_pipelines get_pipeline store merge_request_task fuel page s
          project
        ≡ some (run_all (offer store merge_request_task project.name) s (joined first pages), none)
  unfolding fetch_project
  fetch_project_total project pages first zero s page answers enough = absurd (omega arith)
  fetch_project_total project [] first (suc fuel) s page (answer, listed, same, last) enough =
      rw (fetch_project, listed, same, last, add_pipelines-eq project.name first s) refl
  fetch_project_total project (next ∷ pages) first (suc fuel) s page
        (answer, listed, same, more, rest) enough =
      let step = offer store merge_request_task project.name in
      let later =
        fetch_project_total project pages next fuel (run_all step s first) answer.next_page rest
          (omega arith) in
      rw (fetch_project, listed, same, add_pipelines-eq project.name first s, more, later)
        (ap (λ t. some (t, none)) (sym (run_all-append step s first (joined next pages))))

  -- Where GitLab's pages of projects, and of the pipelines of each of them, answer and end, a round
  -- with more fuel than there are pages ends without an error, and has offered the row of every
  -- pipeline of every project to the table, in GitLab's order: a row that is refused stops nothing.
  pub fetch_all_pipelines_total :
      (pages : List (List ListedProject)) (first : List ListedProject)
      (pipelines_of : ListedProject → List PipelineReply × List (List PipelineReply)) (fuel : ℕ)
      (s : S)
      → Answers list_projects first pages 0
      → page_count pages < fuel
      → All (IsListed list_pipelines fuel pipelines_of) (joined first pages)
      → fetch_all_pipelines list_projects list_pipelines get_pipeline store merge_request_task fuel
          s
        ≡ some (
          run_all (offer_project store merge_request_task pipelines_of) s (joined first pages),
          none,
        )
  unfolding fetch_all_pipelines
  fetch_all_pipelines_total pages first pipelines_of fuel s answers enough listed =
      for_each_project_total
        (fetch_project list_projects list_pipelines get_pipeline store merge_request_task fuel 0)
        (offer_project store merge_request_task pipelines_of) list_projects pages first fuel s 0
        answers enough
        (All-map (joined first pages)
          (λ project found t.
            fetch_project_total project (pipelines_of project).1 (pipelines_of project).0 fuel t 0
              found.0 found.1)
          listed)
