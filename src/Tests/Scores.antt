-- ===== src/Tests/Scores.antt =====
-- The scores of a student.
use notmanytuples.Prelude.{
  ℕ, if◌then◌else◌, String, ◌≡◌, refl, false, none, some, [], ◌∷◌, map, ◌==◌, string_eq,
}
use notmanytuples.Prelude.Int.{pos}
use notmanytuples.Prelude.Lists.{keep, any_of}
use notmanytuples.Prelude.Dict.{Dict, lookup}
use notmanytuples.Prelude.Best.{IsBest, Represents}
use notmanytuples.Models.{Pipeline, Flag, MergeRequest, merge_request_state_merged}
use notmanytuples.Result.{ok}
use notmanytuples.Scorer.Results.{
  ScoredTask, status_success, status_review_pending, status_review_resolved,
}
use notmanytuples.Scorer.Pipelines.{pipeline_less, flag_less, load_user_pipelines, load_user_flags}
use notmanytuples.Scorer.Pipelines.Choice.{
  eligible, load_user_pipelines-Represents, load_user_flags-Represents,
}
use notmanytuples.Scorer.MergeRequests.{
  MergeRequestInfo, has_notes, classify_merge_request, merge_request_better,
  load_user_merge_requests,
}
use notmanytuples.Scorer.MergeRequests.Order.{counted, load_user_merge_requests_represents}
use notmanytuples.Scorer.Scoring.{score_merge_request}
use notmanytuples.Scorer.Scores.{UserRows, unscored, score_task}
use notmanytuples.Scorer.Scores.Zero.{score_task_zero}
use notmanytuples.Scorer.Scoreboard.{
  make_cached_pipelines_provider, make_cached_flags_provider, make_cached_merge_requests_provider,
}
use notmanytuples.Scorer.Scoreboard.Providers.{is_by, make_cached_providers_lem}
use notmanytuples.Scorer.Users.{Provider, score_group, no_scores, load_rows, calc_user_scores_impl}
use notmanytuples.Scorer.Users.Totals.{Answers, total_of, mark_of, calc_user_scores_impl_total}
use notmanytuples.Robot.Requests.{collect_requests}
use notmanytuples.Robot.Update.{ready_to_merge}
use notmanytuples.Robot.Update.Credit.{shown_status, accepted_request_credited}
use notmanytuples.Tests.Data.{
  nat_float, env, ann, sum_task, week, course, pipelines, flags, request, requests, workflow,
}

abbrev pipelines_p : Provider Pipeline
pipelines_p _ = ok pipelines

abbrev flags_p : Provider Flag
flags_p _ = ok flags

abbrev requests_p : Provider MergeRequest
requests_p _ = ok requests

load_user_pipelines-Represents_example :
    (m : Dict String Pipeline) × (load_user_pipelines ann pipelines_p [] ≡ ok m)
    × Represents pipeline_less (λ task. eligible [] task pipelines) m
load_user_pipelines-Represents_example =
    load_user_pipelines-Represents ann pipelines_p [] pipelines refl

load_user_flags-Represents_example :
    (m : Dict String Flag) × (load_user_flags ann flags_p ≡ ok m)
    × Represents flag_less (λ task. keep (λ f. f.task == task) flags) m
load_user_flags-Represents_example = load_user_flags-Represents ann flags_p "ann" flags refl refl

load_user_merge_requests_represents_example :
    (m : Dict String MergeRequestInfo) × (load_user_merge_requests ann requests_p [] ≡ ok m)
    × ((task : String) (i : MergeRequestInfo)
        → lookup task m ≡ some i
        → IsBest merge_request_better i.merge_request (counted [] task requests)
          × (i.has_user_notes ≡ any_of has_notes (counted [] task requests)))
    × ((task : String) → lookup task m ≡ none → counted [] task requests ≡ [])
load_user_merge_requests_represents_example =
    load_user_merge_requests_represents ann requests_p [] requests refl

make_cached_providers_lem_example :
    ((of_project : Provider Pipeline) × (make_cached_pipelines_provider (ok pipelines)
        ≡ ok of_project)
      × ((project : String) → of_project project ≡ ok (keep (λ p. p.project == project) pipelines)))
    × ((of_login : Provider Flag) × (make_cached_flags_provider (ok flags) ≡ ok of_login)
        × ((login : String) → of_login login ≡ ok (keep (is_by login) flags)))
    × ((of_project : Provider MergeRequest) × (make_cached_merge_requests_provider
            (some workflow)
            (ok requests)
          ≡ ok (some (workflow, of_project)))
        × ((project : String)
            → of_project project ≡ ok (keep (λ mr. mr.project == project) requests)))
make_cached_providers_lem_example =
    make_cached_providers_lem workflow pipelines flags requests (("ann", refl), tt)

abbrev info : MergeRequestInfo
info = record { merge_request = request (pos 5) "opened" "success"; has_user_notes = false }

abbrev rows : UserRows ℕ
rows = record {
  login = "ann";
  pipelines = [];
  flags = [];
  merge_requests = some (workflow, ("sum", info) ∷ []);
  overrides = [];
  boards = [];
}

abbrev plain : ScoredTask
plain = record {
  task = "sum";
  short_name = "sum";
  status = "assigned";
  score = pos 0;
  max_score = pos 100;
  overridden = false;
  message = "";
  has_review = false;
  task_url = "sum";
  pipeline_url = "";
  branch_url = "";
  rank = pos 0;
  leaderboard_url = "";
}

abbrev mergeable : MergeRequest
mergeable = request (pos 5) "opened" "success"

accepted_request_credited_example :
    (shown_status nat_float env workflow plain none course ann sum_task week info mergeable
      ≡ (if has_notes mergeable then status_review_resolved else status_review_pending))
    × (shown_status nat_float env workflow plain none course ann sum_task week info
          (record mergeable { state = merge_request_state_merged })
        ≡ status_success)
unfolding collect_requests ready_to_merge
accepted_request_credited_example =
    accepted_request_credited nat_float env workflow plain none course ann sum_task week info
      requests mergeable (pos 600) refl refl

score_task_zero_example :
    (score_task nat_float env course ann rows week none sum_task).score ≡ pos 0
unfolding score_task unscored score_merge_request lookup classify_merge_request
score_task_zero_example = score_task_zero nat_float env course ann rows week none sum_task refl refl

calc_user_scores_impl_total_example :
    (rows : UserRows ℕ) × (load_rows nat_float env ann pipelines_p flags_p
        (some (workflow, requests_p))
        []
        []
        []
      ≡ ok rows)
    × (calc_user_scores_impl nat_float env course ann pipelines_p flags_p
          (some (workflow, requests_p))
          []
          []
          []
        ≡ ok (record {
          groups = map (score_group nat_float env course ann rows) course.assignments;
          score =
              total_of
                (λ g. g.score)
                (pos 0)
                (map (score_group nat_float env course ann rows) course.assignments);
          max_score =
              total_of
                (λ g. g.max_score)
                (pos 0)
                (map (score_group nat_float env course ann rows) course.assignments);
          final_mark = mark_of nat_float env course ann rows 0 course.assignments;
          user = (no_scores nat_float env ann rows.login).user;
        }))
unfolding Answers
calc_user_scores_impl_total_example =
    calc_user_scores_impl_total nat_float env course ann pipelines_p flags_p
      (some (workflow, requests_p)) [] [] [] pipelines flags "ann" refl refl refl (requests, refl)
