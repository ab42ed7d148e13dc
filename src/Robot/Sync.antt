-- ===== src/Robot/Sync.antt =====
-- internal/gitlab/merge_requests.go, `syncMergeRequest`: a request of GitLab as a row.
pub mod Notes
pub mod Files
pub mod Rows
pub mod References
use notmanytuples.Prelude.{
  ℕ, zero, suc, String, Bool, true, false, not, ◌||◌, Option, none, some, List, [], ◌∷◌,
  if◌then◌else◌, ◌==◌, string_eq,
}
use notmanytuples.Prelude.Int.{ℤ, pos, int_lt, int_eq}
use notmanytuples.Prelude.Time.{Time, zero_time, is_zero}
use notmanytuples.Prelude.Text.{◌<>◌, has_prefix}
use notmanytuples.Models.{
  Pipeline, MergeRequest, merge_request_status_can_be_merged, merge_request_status_cannot_be_merged,
}
use notmanytuples.Result.{Result, ok, err, ◌>>=◌}
use notmanytuples.Scorer.Errors.{Error, wrap, wrap_error}
use notmanytuples.Robot.Branch.{tasks_prefix}

unfoldable pub normalize_merge_status : String → String → String
normalize_merge_status detailed legacy =
    if detailed == ""
    then legacy
    else if detailed == "mergeable"
    then merge_request_status_can_be_merged
    else if detailed == "conflict" || detailed == "need_rebase"
    then merge_request_status_cannot_be_merged
    else detailed

pub record Note : Type 0 where
  pub resolvable : Bool
  pub resolved : Bool
  pub created_at : Option Time

-- A page of notes, with the numbers of GitLab's answer.
pub record NotesPage : Type 0 where
  pub notes : List Note
  pub current_page : ℤ
  pub total_pages : ℤ
  pub next_page : ℤ

pub record NotesInfo : Type 0 where
  pub has_unresolved_notes : Bool
  pub last_note_created_at : Time

unfoldable pub no_notes : NotesInfo
no_notes = record { has_unresolved_notes = false; last_note_created_at = zero_time }

-- A resolvable note sets the time, if it is not set yet.
see_note : NotesInfo → Option Time → NotesInfo
see_note info none = info
see_note info (some t) =
    if is_zero info.last_note_created_at then record info { last_note_created_at = t } else info

-- The loop over the notes of a page; `true` beside the result is the return from inside the loop.
unfoldable pub scan_notes : NotesInfo → List Note → Bool × NotesInfo
unfolding see_note
scan_notes info [] = (false, info)
scan_notes info (note ∷ notes) =
    if not note.resolvable
    then scan_notes info notes
    else let seen = see_note info note.created_at in
      if not note.resolved
      then (true, record seen { has_unresolved_notes = true })
      else scan_notes seen notes

-- The loop over the pages; `none` is a loop that has not ended within its fuel.
unfoldable pub get_notes_pages :
    (ℤ → Result Error NotesPage) → ℕ → ℤ → NotesInfo → Option (Result Error NotesInfo)
unfolding scan_notes
get_notes_pages list_notes zero page info = none
get_notes_pages list_notes (suc fuel) page info = elim (list_notes page) [
  | err e ↦ some (err e)
  | ok answer ↦
      let (returned, seen) = scan_notes info answer.notes in
      elim returned [
        | true ↦ some (ok seen)
        | false ↦ elim (int_lt answer.current_page answer.total_pages) [
          | true ↦ get_notes_pages list_notes fuel answer.next_page seen
          | false ↦ some (ok seen)
        ]
      ]
]

-- The first page is asked for by no number, which is 0.
unfoldable pub get_notes_info : (ℤ → Result Error NotesPage) → ℕ → Option (Result Error NotesInfo)
unfolding get_notes_pages no_notes
get_notes_info list_notes fuel = get_notes_pages list_notes fuel (pos 0) no_notes

pub record Change : Type 0 where
  pub new_path : String
  pub old_path : String

pub record Changes : Type 0 where
  pub overflow : Bool
  pub changes : List Change

any_outside : String → List Change → Bool
any_outside allowed_prefix [] = false
any_outside allowed_prefix (change ∷ changes) =
    let rest = any_outside allowed_prefix changes in
    if not (has_prefix change.new_path allowed_prefix)
      || not (has_prefix change.old_path allowed_prefix)
    then true
    else rest

-- Extra changes, and no changes at all.
unfoldable pub inspect_changes : String → Changes → Bool × Bool
unfolding any_outside
inspect_changes task answer = if answer.overflow then (true, false) else elim answer.changes [
  | [] ↦ (false, true)
  | c ∷ cs ↦
      if any_outside (tasks_prefix <> task <> "/") answer.changes
      then (true, false)
      else (false, false)
]

pub record ListedPipeline : Type 0 where
  pub id : ℤ
  pub status : String
  pub created_at : Option Time

pub record PipelineInfo : Type 0 where
  pub id : ℤ
  pub status : String
  pub created_at : Time

unfoldable pub get_latest_pipeline : List ListedPipeline → PipelineInfo
get_latest_pipeline [] = record { id = pos 0; status = ""; created_at = zero_time }
get_latest_pipeline (p ∷ ps) = elim p.created_at [
  | none ↦ get_latest_pipeline ps
  | some t ↦ record { id = p.id; status = p.status; created_at = t }
]

-- A merge request as GitLab lists it.
pub record ListedRequest : Type 0 where
  pub id : ℤ
  pub iid : ℤ
  pub sha : String
  pub state : String
  pub user_notes_count : ℤ
  pub detailed_merge_status : String
  pub merge_status : String
  pub merged_by : Option String
  pub created_at : Option Time

-- What is read of it from GitLab: the notes, the changes and the pipelines. A run of the notes loop
-- that has not ended is no answer.
pub record RequestServer : Type 0 where
  pub notes : Option (Result Error NotesInfo)
  pub changes : Result Error Changes
  pub pipelines : Result Error (List ListedPipeline)

-- The two writes, as the database gets them.
pub data Write : Type 0 where
  add_pipeline : Pipeline → Write
  upsert_merge_request : MergeRequest → Write

unfoldable pub pipeline_row : String → String → PipelineInfo → Pipeline
pipeline_row project task p = record {
  id = p.id;
  project = project;
  task = task;
  status = p.status;
  started_at = p.created_at;
}

unfoldable pub merge_request_row :
    String → String → ListedRequest → NotesInfo → Bool × Bool → PipelineInfo → MergeRequest
unfolding normalize_merge_status
merge_request_row project task mr notes (extra_changes, no_changes) pipeline = record {
  id = mr.id;
  project = project;
  task = task;
  state = mr.state;
  user_notes_count = mr.user_notes_count;
  started_at = elim mr.created_at [ none ↦ zero_time | some t ↦ t ];
  merge_status = normalize_merge_status mr.detailed_merge_status mr.merge_status;
  iid = mr.iid;
  sha = mr.sha;
  merge_user_login = elim mr.merged_by [ none ↦ "" | some login ↦ login ];
  has_unresolved_notes = notes.has_unresolved_notes;
  last_note_created_at = notes.last_note_created_at;
  last_pipeline_id = pipeline.id;
  last_pipeline_status = pipeline.status;
  last_pipeline_created_at = pipeline.created_at;
  extra_changes = extra_changes;
  no_changes = no_changes;
}

-- What the three reads give.
unfoldable pub read_request :
    String → RequestServer → NotesInfo → Result Error (NotesInfo × (Bool × Bool) × PipelineInfo)
unfolding inspect_changes get_latest_pipeline
read_request task server notes = do
  changes ← wrap "Failed to list changes" server.changes
  pipelines ← wrap "Failed to list pipelines" server.pipelines
  ok (notes, inspect_changes task changes, get_latest_pipeline pipelines)

-- The database with its state `S` and its answer to a write.
module _ {S : Type 0} (store : S → Write → S × Option Error) where
  store_row : S → String → Write → S × Option Error
  unfolding wrap_error
  store_row s message write =
      let (t, failure) = store s write in
      elim failure [ none ↦ (t, none) | some e ↦ (t, some (wrap_error message e)) ]

  write_request :
      S
      → String
      → String
      → ListedRequest
      → NotesInfo × (Bool × Bool) × PipelineInfo
      → S × Option Error
  unfolding store_row pipeline_row merge_request_row
  write_request s project task mr (notes, changes, pipeline) =
      let row = merge_request_row project task mr notes changes pipeline in
      let upsert =
        λ (t : S). store_row t "Failed to upsert merge request" (upsert_merge_request row) in
      if int_eq pipeline.id (pos 0)
      then upsert s
      else let (t, failure) =
          store_row s "Failed to upsert merge request pipeline"
            (add_pipeline (pipeline_row project task pipeline)) in
        elim failure [ none ↦ upsert t | some e ↦ (t, some e) ]

  unfoldable pub sync_merge_request :
      S → String → String → ListedRequest → RequestServer → Option (S × Option Error)
  unfolding write_request read_request
  sync_merge_request s project task mr server = elim server.notes [
    | none ↦ none
    | some (err e) ↦ some (s, some (wrap_error "Failed to list notes" e))
    | some (ok notes) ↦ elim (read_request task server notes) [
      | err e ↦ some (s, some e)
      | ok found ↦ some (write_request s project task mr found)
    ]
  ]
