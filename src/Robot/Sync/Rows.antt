-- ===== src/Robot/Sync/Rows.antt =====
-- `syncMergeRequest`: what the database gets.
use notmanytuples.Prelude.{
  String, ◌≡◌, refl, sym, ap, ◌∙◌, ◌⊎◌, inl, inr, Bool, true, false, Option, none, some, List, [],
  ◌∷◌, ◌++◌, if◌then◌else◌, Bool-cases, Option-cases,
}
use mathlib.Core.List.{append_assoc}
use mathlib.Core.Path.{subst}
use notmanytuples.Prelude.Int.{pos, int_eq}
use notmanytuples.Prelude.Lists.{In, All}
use notmanytuples.Prelude.Time.{Time, zero_time}
use notmanytuples.Models.{Pipeline, MergeRequest}
use notmanytuples.Result.{ok}
use notmanytuples.Scorer.Errors.{Error, wrap}
use notmanytuples.Robot.Sync.{
  Change, Changes, ListedPipeline, ListedRequest, NotesInfo, PipelineInfo, RequestServer, Write,
  add_pipeline, upsert_merge_request, inspect_changes, get_latest_pipeline, pipeline_row,
  merge_request_row, normalize_merge_status, read_request, store_row, write_request,
  sync_merge_request,
}
use notmanytuples.Robot.Sync.Files.{
  IsUnder, HasExtra, inspect_changes_clean, inspect_changes-HasExtra, inspect_changes_empty,
}

-- A database that takes every write.
abbrev pub log : List Write → Write → List Write × Option Error
log writes w = (writes ++ w ∷ [], none)

-- The newest pipeline of a request as a row: GitLab lists the newest first, and one without a time
-- does not count; where none counts, the row is empty.
abbrev pub IsLatest : List ListedPipeline → Pipeline → Type 0
IsLatest ps p =
    (All (λ l. l.created_at ≡ none) ps
      × (p.id ≡ pos 0)
      × (p.status ≡ "")
      × (p.started_at ≡ zero_time))
    ⊎ ((newer : List ListedPipeline) × (l : ListedPipeline) × (older : List ListedPipeline) × (ps
          ≡ newer ++ l ∷ older)
        × All (λ l. l.created_at ≡ none) newer
        × (p.id ≡ l.id)
        × (p.status ≡ l.status)
        × (l.created_at ≡ some p.started_at))

get_latest_pipeline-IsLatest :
    (project task : String) (ps : List ListedPipeline)
    → IsLatest ps (pipeline_row project task (get_latest_pipeline ps))
unfolding get_latest_pipeline pipeline_row
get_latest_pipeline-IsLatest project task [] = inl (tt, refl, refl, refl)
get_latest_pipeline-IsLatest project task (l ∷ ps) =
    let goal = λ (p : PipelineInfo). IsLatest (l ∷ ps) (pipeline_row project task p) in
    elim (Option-cases l.created_at) [
      | inr (t, dated) ↦
          let step : get_latest_pipeline (l ∷ ps)
              ≡ record { id = l.id; status = l.status; created_at = t } =
            rw (get_latest_pipeline, dated) refl in
          subst goal (sym step) (inr ([], l, ps, refl, tt, refl, refl, dated))
      | inl undated ↦
          let step : get_latest_pipeline (l ∷ ps) ≡ get_latest_pipeline ps =
            rw (get_latest_pipeline, undated) refl in
          subst goal (sym step) (elim (get_latest_pipeline-IsLatest project task ps) [
            | inl (none_dated, id, status, time) ↦ inl ((undated, none_dated), id, status, time)
            | inr (newer, found, older, split, none_dated, id, status, time) ↦ inr (
              l ∷ newer,
              found,
              older,
              ap (λ xs. l ∷ xs) split,
              (undated, none_dated),
              id,
              status,
              time,
            )
          ])
    ]

module _ (project task : String) (mr : ListedRequest) (server : RequestServer) where
  -- The row has the request's own fields and what was read of its notes.
  pub record Describes (notes : NotesInfo) (row : MergeRequest) : Type 0 where
    pub numbers : (row.id ≡ mr.id) × (row.iid ≡ mr.iid)
    pub place : (row.project ≡ project) × (row.task ≡ task)
    pub head : (row.state ≡ mr.state) × (row.sha ≡ mr.sha)
    pub merge_status :
        row.merge_status ≡ normalize_merge_status mr.detailed_merge_status mr.merge_status
    pub merge_user : (login : String) → mr.merged_by ≡ some login → row.merge_user_login ≡ login
    pub started : (t : Time) → mr.created_at ≡ some t → row.started_at ≡ t
    pub notes_count : row.user_notes_count ≡ mr.user_notes_count
    pub unresolved : row.has_unresolved_notes ≡ notes.has_unresolved_notes
    pub last_note : row.last_note_created_at ≡ notes.last_note_created_at

  -- The request's row marks no change only if the request touches files of its task alone.
  abbrev pub IsClean : MergeRequest → Changes → Type 0
  IsClean row changes =
      row.extra_changes ≡ false
      → row.no_changes ≡ false
      → (c : Change) → In c changes.changes
      → IsUnder task c.new_path × IsUnder task c.old_path

  row-IsClean :
      (notes : NotesInfo) (changes : Changes) (ps : List ListedPipeline)
      → IsClean
          (merge_request_row project task mr notes
            (inspect_changes task changes)
            (get_latest_pipeline ps))
          changes
  unfolding merge_request_row
  row-IsClean notes changes ps h k =
      let (complete, some_changes, clean) = inspect_changes_clean task changes (λ i. (h i, k i)) in
      clean

  reads :
      (writes : List Write) (notes : NotesInfo) (changes : Changes) (ps : List ListedPipeline)
      → server.notes ≡ some (ok notes)
      → server.changes ≡ ok changes
      → server.pipelines ≡ ok ps
      → sync_merge_request log writes project task mr server
        ≡ some (
            write_request log writes project task mr
              (notes, inspect_changes task changes, get_latest_pipeline ps))
  unfolding sync_merge_request read_request wrap
  reads writes notes changes ps hn hc hp = rw (hn, hc, hp, sync_merge_request) refl

  write_request-log :
      (writes : List Write) (notes : NotesInfo) (changes : Bool × Bool) (p : PipelineInfo)
      → write_request log writes project task mr (notes, changes, p) ≡ (
        if int_eq p.id (pos 0)
            then writes
              ++ upsert_merge_request (merge_request_row project task mr notes changes p) ∷ []
            else writes
              ++ add_pipeline (pipeline_row project task p)
                ∷ upsert_merge_request (merge_request_row project task mr notes changes p)
                ∷ [],
        none,
      )
  unfolding write_request store_row
  write_request-log writes notes changes p =
      let row = merge_request_row project task mr notes changes p in
      elim (Bool-cases (int_eq p.id (pos 0))) [
        | inl e ↦ rw e refl
        | inr e ↦ rw e (
            ap {B = List Write × Option Error} (λ (l : List Write). (l, none))
              (append_assoc writes (add_pipeline (pipeline_row project task p) ∷ [])
                (upsert_merge_request row ∷ [])))
      ]

  -- When GitLab answers and the database takes every write, a synced request leaves, in this order,
  -- the row of its latest pipeline, if the id of that is not 0, and its own row. The latest pipeline
  -- is the first of GitLab's list that has a time. The request's row has the fields of the request,
  -- its notes and that pipeline, and it is marked as empty or as extra only if the list of changes
  -- is empty, or cut off or with a change outside of the task; a row with neither mark is of a
  -- request that touches its task alone.
  pub sync_merge_request_rows :
      (writes : List Write) (notes : NotesInfo) (changes : Changes) (ps : List ListedPipeline)
      → server.notes ≡ some (ok notes)
      → server.changes ≡ ok changes
      → server.pipelines ≡ ok ps
      → (p : Pipeline) × (row : MergeRequest) × (sync_merge_request log writes project task mr
            server
          ≡ some (
            if int_eq p.id (pos 0)
                then writes ++ upsert_merge_request row ∷ []
                else writes ++ add_pipeline p ∷ upsert_merge_request row ∷ [],
            none,
          ))
        × IsLatest ps p
        × ((p.project ≡ project) × (p.task ≡ task))
        × Describes notes row
        × (row.last_pipeline_id ≡ p.id)
        × (row.last_pipeline_status ≡ p.status)
        × (row.last_pipeline_created_at ≡ p.started_at)
        × (row.extra_changes ≡ true → HasExtra task changes)
        × (row.no_changes ≡ true → changes.changes ≡ [])
        × IsClean row changes
  unfolding pipeline_row merge_request_row
  sync_merge_request_rows writes notes changes ps hn hc hp = (
    pipeline_row project task (get_latest_pipeline ps),
    merge_request_row project task mr notes (inspect_changes task changes) (get_latest_pipeline ps),
    reads writes notes changes ps hn hc hp
        ∙ ap some (
            write_request-log writes notes (inspect_changes task changes) (get_latest_pipeline ps)),
    get_latest_pipeline-IsLatest project task ps,
    (refl, refl),
    record {
      numbers = (refl, refl);
      place = (refl, refl);
      head = (refl, refl);
      merge_status = refl;
      merge_user = λ login h. rw h refl;
      started = λ t h. rw h refl;
      notes_count = refl;
      unresolved = refl;
      last_note = refl;
    },
    refl,
    refl,
    refl,
    inspect_changes-HasExtra task changes,
    inspect_changes_empty task changes,
    row-IsClean notes changes ps,
  )
