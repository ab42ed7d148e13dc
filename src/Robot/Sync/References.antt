-- ===== src/Robot/Sync/References.antt =====
-- The sync of a request, whatever fails: no request is stored before the pipeline that it names.
use notmanytuples.Prelude.{
  String, ◌≡◌, Bool, ◌⊎◌, inl, inr, refl, sym, ap, ◌∙◌, Bool-cases, Option-cases, Option, none,
  some, List, ◌∷◌, arith,
}
use mathlib.Core.Path.{subst}
use notmanytuples.Prelude.Int.{pos, int_eq}
use notmanytuples.Prelude.Lists.{In, All, All-map}
use notmanytuples.Models.{Pipeline, MergeRequest}
use notmanytuples.Result.{ok, err, Result-cases}
use notmanytuples.Scorer.Errors.{Error, wrap_error}
use notmanytuples.Robot.Sync.{
  ListedRequest, RequestServer, NotesInfo, PipelineInfo, Write, add_pipeline, upsert_merge_request,
  pipeline_row, merge_request_row, read_request, store_row, write_request, sync_merge_request,
}

-- The rows that the two tables have been given.
pub record Rows : Type 0 where
  pub pipelines : List Pipeline
  pub merge_requests : List MergeRequest

abbrev pub add_row : Rows → Write → Rows
add_row rows (add_pipeline p) = record rows { pipelines = p ∷ rows.pipelines }
add_row rows (upsert_merge_request mr) = record rows { merge_requests = mr ∷ rows.merge_requests }

-- A database that takes a write or fails, as `failure` says; a write that fails changes nothing.
abbrev pub write_or_fail : (Rows → Write → Option Error) → Rows → Write → Rows × Option Error
write_or_fail failure rows w = elim (failure rows w) [
  | none ↦ (add_row rows w, none)
  | some e ↦ (rows, some e)
]

-- The request names no pipeline, or one that the table has, of the same project and task.
abbrev pub HasPipeline : Rows → MergeRequest → Type 0
HasPipeline rows mr =
    (mr.last_pipeline_id ≡ pos 0)
    ⊎ ((p : Pipeline) × In p rows.pipelines
        × (p.id ≡ mr.last_pipeline_id)
        × (p.project ≡ mr.project)
        × (p.task ≡ mr.task))

abbrev pub IsReferential : Rows → Type 0
IsReferential rows = All (HasPipeline rows) rows.merge_requests

abbrev Kept : Rows × Option Error → Type 0
Kept r = IsReferential r.0

-- Any rows that a run ends with.
abbrev pub Ends : Option (Rows × Option Error) → Type 0
Ends none = Unit
Ends (some (rows, e)) = IsReferential rows

module _ (failure : Rows → Write → Option Error) where
  add_pipeline-IsReferential :
      (rows : Rows) (p : Pipeline)
      → IsReferential rows
      → IsReferential (add_row rows (add_pipeline p))
  add_pipeline-IsReferential rows p h =
      All-map rows.merge_requests
        (λ mr named. elim named [
          | inl no_pipeline ↦ inl no_pipeline
          | inr (q, there, id, project, task) ↦ inr (q, inr there, id, project, task)
        ])
        h

  -- What `store_row` makes of the answer to its write.
  wrapped_reply : String → Rows × Option Error → Rows × Option Error
  wrapped_reply message (rows, none) = (rows, none)
  wrapped_reply message (rows, some e) = (rows, some (wrap_error message e))

  stored_reply :
      (rows : Rows) (message : String) (w : Write) (reply : Rows × Option Error)
      → write_or_fail failure rows w ≡ reply
      → store_row (write_or_fail failure) rows message w ≡ wrapped_reply message reply
  unfolding store_row wrapped_reply
  stored_reply rows message w (t, none) h =
      ap
        (λ (r : Rows × Option Error). elim r.1 [
          | none ↦ (r.0, none)
          | some e ↦ (r.0, some (wrap_error message e))
        ])
        h
  stored_reply rows message w (t, some x) h =
      ap
        (λ (r : Rows × Option Error). elim r.1 [
          | none ↦ (r.0, none)
          | some e ↦ (r.0, some (wrap_error message e))
        ])
        h

  written_reply :
      (rows : Rows) (message : String) (w : Write)
      → failure rows w ≡ none
      → store_row (write_or_fail failure) rows message w ≡ (add_row rows w, none)
  unfolding wrapped_reply
  written_reply rows message w taken =
      stored_reply rows message w (add_row rows w, none)
        (ap
          (λ (o : Option Error). elim o [ none ↦ (add_row rows w, none) | some e ↦ (rows, some e) ])
          taken)

  refused_reply :
      (rows : Rows) (message : String) (w : Write) (e : Error)
      → failure rows w ≡ some e
      → store_row (write_or_fail failure) rows message w ≡ (rows, some (wrap_error message e))
  unfolding wrapped_reply
  refused_reply rows message w e failed =
      stored_reply rows message w (rows, some e)
        (ap
          (λ (o : Option Error). elim o [ none ↦ (add_row rows w, none) | some e ↦ (rows, some e) ])
          failed)

  stored-IsReferential :
      (rows : Rows) (message : String) (mr : MergeRequest)
      → IsReferential rows
      → HasPipeline rows mr
      → Kept (store_row (write_or_fail failure) rows message (upsert_merge_request mr))
  stored-IsReferential rows message mr h named =
      let w : Write = upsert_merge_request mr in
      elim (Option-cases (failure rows w)) [
        | inl taken ↦ subst Kept (sym (written_reply rows message w taken)) (named, h)
        | inr (e, failed) ↦ subst Kept (sym (refused_reply rows message w e failed)) h
      ]

  write_request-IsReferential :
      (rows : Rows) (project task : String) (mr : ListedRequest) (notes : NotesInfo)
      (marks : Bool × Bool) (p : PipelineInfo)
      → IsReferential rows
      → Kept (write_request (write_or_fail failure) rows project task mr (notes, marks, p))
  unfolding write_request merge_request_row pipeline_row
  write_request-IsReferential rows project task mr notes marks p h =
      let store = write_or_fail failure in
      let row = merge_request_row project task mr notes marks p in
      let named = pipeline_row project task p in
      let first : String = "Failed to upsert merge request pipeline" in
      let message : String = "Failed to upsert merge request" in
      let write = write_request store rows project task mr (notes, marks, p) in
      elim (Bool-cases (int_eq p.id (pos 0))) [
        | inl no_pipeline ↦
            let step : write ≡ store_row store rows message (upsert_merge_request row) =
              rw (write_request, no_pipeline) refl in
            subst Kept (sym step) (stored-IsReferential rows message row h (inl (ground arith)))
        | inr numbered ↦
            let finish : Rows × Option Error → Rows × Option Error = λ r. elim r.1 [
              | none ↦ store_row store r.0 message (upsert_merge_request row)
              | some e ↦ (r.0, some e)
            ] in
            let opened : write ≡ finish (store_row store rows first (add_pipeline named)) =
              rw (write_request, numbered) refl in
            elim (Option-cases (failure rows (add_pipeline named))) [
              | inr (e, failed) ↦
                  subst Kept
                    (sym
                      (opened ∙ ap finish (refused_reply rows first (add_pipeline named) e failed)))
                    h
              | inl taken ↦
                  subst Kept
                    (sym (opened ∙ ap finish (written_reply rows first (add_pipeline named) taken)))
                    (stored-IsReferential (add_row rows (add_pipeline named)) message row
                      (add_pipeline-IsReferential rows named h)
                      (inr (named, inl refl, refl, refl, refl)))
            ]
      ]

  -- Whatever fails, the sync of a request keeps the references.
  pub sync_merge_request-IsReferential :
      (rows : Rows) (project task : String) (mr : ListedRequest) (server : RequestServer)
      → IsReferential rows
      → Ends (sync_merge_request (write_or_fail failure) rows project task mr server)
  unfolding sync_merge_request
  sync_merge_request-IsReferential rows project task mr server h =
      elim (Option-cases server.notes) [
        | inl endless ↦ rw (sync_merge_request, endless) tt
        | inr (err e, failed) ↦ rw (sync_merge_request, failed) h
        | inr (ok notes, answered) ↦ elim (Result-cases (read_request task server notes)) [
          | inr (e, failed) ↦ rw (sync_merge_request, answered, failed) h
          | inl ((notes, marks, p), found) ↦
              rw (sync_merge_request, answered, found)
                (write_request-IsReferential rows project task mr notes marks p h)
        ]
      ]
