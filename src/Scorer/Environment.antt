-- ===== src/Scorer/Environment.antt =====
-- What the scorer is given: the names of pages, the clock, and texts that Go's library formats.
use notmanytuples.Prelude.{String}
use notmanytuples.Prelude.Time.{Time, Duration}
use notmanytuples.Models.{User, Pipeline, MergeRequest}

-- The interface `ProjectNameFactory`.
pub record ProjectNameFactory : Type 0 where
  pub make_project_url : User → String
  pub make_pipeline_url : User → Pipeline → String
  pub make_branch_url : User → Pipeline → String
  pub make_merge_request_url : User → MergeRequest → String
  pub make_task_url : String → String

pub record Environment : Type 0 where
  pub projects : ProjectNameFactory
  -- `s.now()`
  pub now : Time
  -- `strings.Title`
  pub title_case : String → String
  -- `url.QueryEscape`
  pub query_escape : String → String
  -- `d.Round(time.Minute).String()`
  pub format_minutes : Duration → String
