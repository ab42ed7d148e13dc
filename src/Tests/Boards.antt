-- ===== src/Tests/Boards.antt =====
-- The leaderboard of a benchmark task.
use notmanytuples.Prelude.{ℕ, String, ◌≡◌, refl, some, none, arith, string_eq}
use notmanytuples.Prelude.Dict.{lookup}
use notmanytuples.Prelude.Int.{pos}
use notmanytuples.Prelude.Time.{Time}
use notmanytuples.Result.{ok}
use notmanytuples.Scorer.Leaderboard.{LeaderboardsMap, TaskLeaderboard, calc_leaderboards}
use notmanytuples.Scorer.Leaderboard.Boards.{board_deadline, on_time}
use notmanytuples.Scorer.Leaderboard.Ranking.{ShowsResults, AreReports}
use notmanytuples.Scorer.Leaderboard.Filled.{calc_leaderboards-ShowsResults}
use notmanytuples.Tests.Data.{nat_float, nat_order, course, results}

results-AreReports : AreReports nat_float results
results-AreReports = record {
  pipelines = ((λ e. absurd (ground arith), tt), (tt, tt));
  metrics = (refl, (refl, tt));
}

calc_leaderboards-ShowsResults_example :
    (boards : LeaderboardsMap ℕ) × (calc_leaderboards nat_float (λ _. ok results) course "hse"
      ≡ ok boards)
    × ((task : String) (deadline : Time)
        → board_deadline course.assignments task ≡ some deadline
        → (b : TaskLeaderboard ℕ) × (lookup task boards ≡ some b)
          × (b.deadline ≡ deadline)
          × ShowsResults nat_float b (on_time deadline task results))
    × ((task : String) → board_deadline course.assignments task ≡ none → lookup task boards ≡ none)
calc_leaderboards-ShowsResults_example =
    calc_leaderboards-ShowsResults course nat_float nat_order (λ _. ok results) "hse" results refl
      results-AreReports

race_deadline : board_deadline course.assignments "race" ≡ some (pos 500)
race_deadline = refl
