-- ===== src/Robot/Fresh/Queue.antt =====
-- What leaves the queue of fresh pipelines.
use notmanytuples.Prelude.{
  String, ◌≡◌, refl, inl, inr, arith, Bool, true, not, Option, none, List, [], ◌∷◌, ◌==◌, string_eq,
}
use notmanytuples.Prelude.Int.{ℤ}
use notmanytuples.Prelude.Lists.{keep}
use notmanytuples.Models.{Pipeline, pipeline_status_running}
use notmanytuples.Result.{Result, ok, err, Result-cases}
use notmanytuples.Scorer.Errors.{Error}
use notmanytuples.Robot.Fresh.{
  QualifiedPipelineId, PipelineReply, TaskLookup, fetched, fetch_pipeline, is_removed,
  fetch_fresh_pipelines,
}

-- The pipeline's fetch fails, or it is still running.
abbrev pub is_pending : (String → ℤ → Result Error PipelineReply) → QualifiedPipelineId → Bool
is_pending get_pipeline queued = elim (get_pipeline queued.project queued.id) [
  | err e ↦ true
  | ok reply ↦ reply.status == pipeline_status_running
]

-- A database that takes every row.
abbrev pub takes : {S : Type 0} → (S → Pipeline → S) → S → Pipeline → S × Option Error
takes store s row = (store s row, none)

module _ {S : Type 0} (get_pipeline : String → ℤ → Result Error PipelineReply)
    (store : S → Pipeline → S) (merge_request_task : TaskLookup) where
  removed :
      (s : S) (queued : QualifiedPipelineId)
      → is_removed get_pipeline
          (takes store)
          merge_request_task
          (fetch_pipeline get_pipeline (takes store) merge_request_task s queued).1
        ≡ not (is_pending get_pipeline queued)
  unfolding fetch_pipeline is_removed fetched
  removed s queued = elim (Result-cases (get_pipeline queued.project queued.id)) [
    | inl (reply, e) ↦ rw (e, fetch_pipeline, is_pending) refl
    | inr (failure, e) ↦ rw (e, fetch_pipeline, is_pending) refl
  ]

  -- With a database that takes every row, a round leaves in the queue, in their order, exactly the
  -- pipelines whose fetch fails and those that are still running.
  pub fetch_fresh_pipelines_lem :
      (s : S) (queue : List QualifiedPipelineId)
      → (fetch_fresh_pipelines get_pipeline (takes store) merge_request_task s queue).1
        ≡ keep (is_pending get_pipeline) queue
  unfolding fetch_fresh_pipelines
  fetch_fresh_pipelines_lem s [] = refl
  fetch_fresh_pipelines_lem s (queued ∷ queue) =
      let t = (fetch_pipeline get_pipeline (takes store) merge_request_task s queued).0 in
      ground (arith, removed s queued, fetch_fresh_pipelines_lem t queue)
