-- ===== src/Tests/Robot.antt =====
-- A round of the robot on a student's branch.
use notmanytuples.Prelude.{
  ℕ, ◌+◌, String, ◌≡◌, ◌≢◌, refl, true, false, Option, none, some, List, [], ◌∷◌, ◌++◌, arith,
  if◌then◌else◌, string_eq,
}
use notmanytuples.Prelude.Int.{ℤ, pos, int_eq, to_int64, ◌+ℤ◌, ◌-ℤ◌}
use notmanytuples.Prelude.Lists.{In, keep, any_of}
use notmanytuples.Prelude.Best.{IsBest}
use notmanytuples.Prelude.Time.{after, time_add}
use notmanytuples.Prelude.Text.{has_prefix, strip_prefix}
use notmanytuples.Models.{Pipeline, MergeRequest}
use notmanytuples.Result.{Result, ok}
use notmanytuples.Scorer.Errors.{Error}
use notmanytuples.Scorer.Scoring.{time_to_merge}
use notmanytuples.Robot.Branch.{
  is_submit_branch, parse_task_from_branch, parse_task_from_branch_roundtrip,
}
use notmanytuples.Robot.Requests.{newer, collect_requests}
use notmanytuples.Robot.Requests.Newest.{is_opened, is_merged, collect_requests_lem}
use notmanytuples.Robot.Sync.{
  Note, NotesPage, NotesInfo, get_notes_info, Change, Changes, inspect_changes, ListedPipeline,
  ListedRequest, RequestServer, add_pipeline, upsert_merge_request, sync_merge_request,
}
use notmanytuples.Robot.Sync.Notes.{
  last_page, is_unresolved, IsDated, first_time, get_notes_info_total,
}
use notmanytuples.Robot.Sync.Files.{IsUnder, HasExtra, inspect_changes_clean}
use notmanytuples.Robot.Sync.Rows.{log, IsClean, IsLatest, Describes, sync_merge_request_rows}
use notmanytuples.Robot.Fresh.{QualifiedPipelineId, PipelineReply, fetch_fresh_pipelines}
use notmanytuples.Robot.Fresh.Queue.{is_pending, takes, fetch_fresh_pipelines_lem}
use notmanytuples.Robot.Update.{Branch, Call, review_deadline_of, update_branch}
use notmanytuples.Robot.Update.Rule.{IsRound, update_branch_justified}
use notmanytuples.Robot.Update.Credit.{quiet_request_no_countdown}
use notmanytuples.Tests.Data.{env, request, requests, workflow}

parse_task_from_branch_roundtrip_example :
    (is_submit_branch "submits/sum" ≡ true)
    × (parse_task_from_branch "submits/sum" ≡ "sum")
    × (is_submit_branch "submits/tasks/sum" ≡ true)
    × (parse_task_from_branch "submits/tasks/sum" ≡ "sum")
unfolding has_prefix strip_prefix
parse_task_from_branch_roundtrip_example = parse_task_from_branch_roundtrip "sum" refl

collect_requests_lem_example :
    ((b : MergeRequest)
      → (collect_requests requests).opened ≡ some b
      → IsBest newer b (keep is_opened requests))
    × ((collect_requests requests).opened ≡ none → keep is_opened requests ≡ [])
    × ((b : MergeRequest)
        → (collect_requests requests).merged ≡ some b
        → IsBest newer b (keep is_merged requests))
    × ((collect_requests requests).merged ≡ none → keep is_merged requests ≡ [])
    × ((collect_requests requests).has_unresolved_notes
        ≡ any_of (λ mr. mr.has_unresolved_notes) requests)
    × ((mr : MergeRequest)
        → In mr requests
        → after mr.last_note_created_at (collect_requests requests).last_note_created_at ≡ false)
collect_requests_lem_example = collect_requests_lem requests

abbrev branch : Branch
branch = record { name = "submits/sum"; commit_id = some "c0ffee" }

-- GitLab takes every call.
abbrev send : List Call → Call → List Call × Option Error
send calls call = (calls ++ call ∷ [], none)

update_branch_justified_example :
    IsRound send workflow
      (pos 600)
      branch
      requests
      []
      (update_branch send (λ _ _. ok requests) workflow [] "hse-ann" branch (pos 600))
update_branch_justified_example =
    update_branch_justified send (λ _ _. ok requests) workflow [] "hse-ann" branch (pos 600)
      requests refl

abbrev quiet_request : MergeRequest
quiet_request = request (pos 5) "opened" "success"

quiet_request_no_countdown_example : time_to_merge env workflow quiet_request ≡ ""
unfolding review_deadline_of time_add ◌+ℤ◌ to_int64 ◌-ℤ◌
quiet_request_no_countdown_example =
    quiet_request_no_countdown env workflow quiet_request (omega arith) (omega arith) refl refl

abbrev page : NotesPage
page = record {
  notes =
      record { resolvable = true; resolved = true; created_at = some (pos 70) }
      ∷ record { resolvable = true; resolved = false; created_at = some (pos 60) }
      ∷ [];
  current_page = pos 1;
  total_pages = pos 1;
  next_page = pos 0;
}

get_notes_info_total_example :
    (info : NotesInfo) × ((n : ℕ) × ((m : ℕ)
        → get_notes_info (λ _. ok page) (n + m) ≡ some (ok info)))
    × (info.has_unresolved_notes ≡ any_of is_unresolved page.notes)
    × (((note : Note) → In note page.notes → IsDated note)
        → info.last_note_created_at ≡ first_time page.notes)
get_notes_info_total_example =
    get_notes_info_total (λ _. ok page) page.notes (last_page (pos 0) page refl refl)

abbrev own_changes : Changes
own_changes = record {
  overflow = false;
  changes = record { new_path = "tasks/sum/sum.cpp"; old_path = "tasks/sum/sum.cpp" } ∷ [];
}

inspect_changes_clean_example :
    (own_changes.overflow ≡ false)
    × (own_changes.changes ≢ [])
    × ((c : Change)
        → In c own_changes.changes
        → IsUnder "sum" c.new_path × IsUnder "sum" c.old_path)
unfolding inspect_changes has_prefix strip_prefix
inspect_changes_clean_example = inspect_changes_clean "sum" own_changes refl

abbrev pub listed : ListedRequest
listed = record {
  id = pos 5;
  iid = pos 5;
  sha = "c0ffee";
  state = "opened";
  user_notes_count = pos 0;
  detailed_merge_status = "mergeable";
  merge_status = "";
  merged_by = none;
  created_at = some (pos 100);
}

abbrev found_notes : NotesInfo
found_notes = record { has_unresolved_notes = false; last_note_created_at = pos 0 }

abbrev found_pipelines : List ListedPipeline
found_pipelines = record { id = pos 9; status = "success"; created_at = some (pos 200) } ∷ []

abbrev pub server : RequestServer
server = record {
  notes = some (ok found_notes);
  changes = ok own_changes;
  pipelines = ok found_pipelines;
}

sync_merge_request_rows_example :
    (p : Pipeline) × (row : MergeRequest) × (sync_merge_request log [] "hse-ann" "sum" listed server
      ≡ some (
        if int_eq p.id (pos 0)
            then upsert_merge_request row ∷ []
            else add_pipeline p ∷ upsert_merge_request row ∷ [],
        none,
      ))
    × IsLatest found_pipelines p
    × ((p.project ≡ "hse-ann") × (p.task ≡ "sum"))
    × Describes "hse-ann" "sum" listed server found_notes row
    × (row.last_pipeline_id ≡ p.id)
    × (row.last_pipeline_status ≡ p.status)
    × (row.last_pipeline_created_at ≡ p.started_at)
    × (row.extra_changes ≡ true → HasExtra "sum" own_changes)
    × (row.no_changes ≡ true → own_changes.changes ≡ [])
    × IsClean "hse-ann" "sum" listed server row own_changes
sync_merge_request_rows_example =
    sync_merge_request_rows "hse-ann" "sum" listed server [] found_notes own_changes found_pipelines
      refl refl refl

abbrev fresh_queue : List QualifiedPipelineId
fresh_queue =
    record { project = "hse-ann"; id = pos 7 } ∷ record { project = "hse-ann"; id = pos 8 } ∷ []

-- Pipeline 7 has ended, and pipeline 8 runs.
abbrev pub get_fresh : String → ℤ → Result Error PipelineReply
get_fresh _ id = ok (record {
  id = id;
  ref = "submits/sum";
  status = if int_eq id (pos 7) then "success" else "running";
  created_at = pos 100;
})

fetch_fresh_pipelines_lem_example :
    (fetch_fresh_pipelines get_fresh
      (takes (λ rows row. row ∷ rows))
      (λ _ _. ("", false))
      []
      fresh_queue).1
    ≡ keep (is_pending get_fresh) fresh_queue
fetch_fresh_pipelines_lem_example =
    fetch_fresh_pipelines_lem get_fresh (λ rows row. row ∷ rows) (λ _ _. ("", false)) [] fresh_queue
