-- ===== src/Scorer/Leaderboard.antt =====
-- internal/scorer/leaderboard.go: the ranking of the results of benchmark tasks.
pub mod Order
pub mod Ranks
pub mod Entries
pub mod Ranking
pub mod Boards
pub mod Filled
use notmanytuples.Prelude.{
  ℕ, suc, ◌+◌, ◌-◌, String, Bool, true, false, not, ◌||◌, Option, none, some, List, [], ◌∷◌, ◌++◌,
  map, if◌then◌else◌, ◌==◌, string_eq,
}
use notmanytuples.Prelude.Int.{ℤ, pos, negsuc, int_lt, int_eq, ◌-ℤ◌, to_int64}
use notmanytuples.Prelude.Dict.{Dict, lookup, insert, values, or_empty}
use notmanytuples.Prelude.Time.{Time, before, after}
use notmanytuples.Prelude.Float.{Float}
use notmanytuples.Prelude.Text.{◌<>◌}
use notmanytuples.Prelude.Best.{challenge}
use notmanytuples.Prelude.Sort.{sort_slice}
use notmanytuples.Deadlines.{Task, TaskGroup, Deadlines}
use notmanytuples.Result.{Result, ok, err, ◌>>=◌}
use notmanytuples.Scorer.Errors.{Error, nil_pointer}

-- internal/database/database.go: a row of `ListGroupBenchmarks`.
pub record GroupBenchmark (F : Type 0) : Type 0 where
  pub gitlab_login : String
  pub first_name : String
  pub last_name : String
  pub task : String
  pub pipeline_id : ℤ
  pub metric : F
  pub submitted_at : Time

pub record LeaderboardEntry (F : Type 0) : Type 0 where
  pub gitlab_login : String
  pub name : String
  pub metric : F
  pub submitted_at : Time
  pub pipeline_id : ℤ

pub record TaskLeaderboard (F : Type 0) : Type 0 where
  pub deadline : Time
  pub entries : List (LeaderboardEntry F)
  pub ranks : Dict String ℤ

abbrev pub LeaderboardsMap : Type 0 → Type 0
LeaderboardsMap F = Dict String (TaskLeaderboard F)

module _ {F : Type 0} where
  -- `Rank`: the rank of a login, if it has one.
  unfoldable pub rank_of : TaskLeaderboard F → String → Option ℤ
  rank_of board login = lookup login board.ranks

  pub new_leaderboard : Time → TaskLeaderboard F
  new_leaderboard deadline = record { deadline = deadline; entries = []; ranks = [] }

  add_task_boards : Time → LeaderboardsMap F → List (Task F) → LeaderboardsMap F
  add_task_boards deadline boards [] = boards
  add_task_boards deadline boards (t ∷ ts) =
      add_task_boards deadline
        (elim t.leaderboard [
          | none ↦ boards
          | some _ ↦ insert t.task (new_leaderboard deadline) boards
        ])
        ts

  add_group_boards : LeaderboardsMap F → List (TaskGroup F) → LeaderboardsMap F
  add_group_boards boards [] = boards
  add_group_boards boards (g ∷ gs) = add_group_boards (add_task_boards g.deadline boards g.tasks) gs

  unfoldable pub new_leaderboards : Deadlines F → LeaderboardsMap F
  unfolding add_group_boards add_task_boards new_leaderboard
  new_leaderboards d = add_group_boards [] d.assignments

  unfoldable pub entry_of : GroupBenchmark F → LeaderboardEntry F
  entry_of r = record {
    gitlab_login = r.gitlab_login;
    name = r.first_name <> " " <> r.last_name;
    metric = r.metric;
    submitted_at = r.submitted_at;
    pipeline_id = r.pipeline_id;
  }

  -- A result that no board takes: of another task, or late.
  unfoldable pub is_skipped : LeaderboardsMap F → GroupBenchmark F → Bool
  is_skipped boards r = elim (lookup r.task boards) [
    | none ↦ true
    | some board ↦ after r.submitted_at board.deadline
  ]

  -- The ranks of entries in their order, from `i + 1` on.
  unfoldable pub index_ranks : ℕ → Dict String ℤ → List (LeaderboardEntry F) → Dict String ℤ
  index_ranks i ranks [] = ranks
  index_ranks i ranks (e ∷ es) = index_ranks (suc i) (insert e.gitlab_login (pos (suc i)) ranks) es

module _ {F : Type 0} (fl : Float F) where
  unfoldable pub entry_less : LeaderboardEntry F → LeaderboardEntry F → Bool
  entry_less left right =
      if not (fl.eq left.metric right.metric)
      then fl.lt left.metric right.metric
      else if not (int_eq left.submitted_at right.submitted_at)
      then before left.submitted_at right.submitted_at
      else int_lt left.pipeline_id right.pipeline_id

  -- The entries of one task after a further result.
  pub keep_best :
      Option (Dict String (LeaderboardEntry F))
      → GroupBenchmark F
      → Dict String (LeaderboardEntry F)
  unfolding entry_less entry_of
  keep_best by_login r =
      let m = or_empty by_login in
      insert r.gitlab_login (challenge entry_less (lookup r.gitlab_login m) (entry_of r)) m

  pub pick_entries :
      LeaderboardsMap F
      → Dict String (Dict String (LeaderboardEntry F))
      → List (GroupBenchmark F)
      → Dict String (Dict String (LeaderboardEntry F))
  unfolding is_skipped keep_best
  pick_entries boards best [] = best
  pick_entries boards best (r ∷ rs) = elim (is_skipped boards r) [
    | true ↦ pick_entries boards best rs
    | false ↦ pick_entries boards (insert r.task (keep_best (lookup r.task best) r) best) rs
  ]

  unfoldable pub rank_entries :
      TaskLeaderboard F → Dict String (LeaderboardEntry F) → TaskLeaderboard F
  unfolding entry_less sort_slice index_ranks
  rank_entries board by_login =
      let entries = sort_slice entry_less (board.entries ++ values by_login) in
      record board { entries = entries; ranks = index_ranks 0 board.ranks entries }

  -- A task without a board is a write through a nil pointer.
  pub rank_boards :
      LeaderboardsMap F
      → Dict String (Dict String (LeaderboardEntry F))
      → Result Error (LeaderboardsMap F)
  unfolding rank_entries
  rank_boards boards [] = ok boards
  rank_boards boards ((task, by_login) ∷ best) = elim (lookup task boards) [
    | none ↦ err nil_pointer
    | some board ↦ rank_boards (insert task (rank_entries board by_login) boards) best
  ]

  unfoldable pub fill_leaderboards :
      LeaderboardsMap F → List (GroupBenchmark F) → Result Error (LeaderboardsMap F)
  unfolding pick_entries rank_boards
  fill_leaderboards boards results = rank_boards boards (pick_entries boards [] results)

  unfoldable pub calc_leaderboards :
      (String → Result Error (List (GroupBenchmark F)))
      → Deadlines F
      → String
      → Result Error (LeaderboardsMap F)
  unfolding new_leaderboards fill_leaderboards
  calc_leaderboards list_group_benchmarks d group = elim (new_leaderboards d) [
    | [] ↦ ok []
    | b ∷ bs ↦ do results ← list_group_benchmarks group; fill_leaderboards (b ∷ bs) results
  ]

  -- `int` arithmetic on ranks: `total - rank` and `total - 1`.
  unfoldable pub leaderboard_score : ℤ → F → ℤ → ℤ → ℤ
  unfolding ◌-ℤ◌ to_int64
  leaderboard_score base bonus rank total =
      if not (int_lt (pos 0) rank) || not (int_lt (pos 0) total)
      then base
      else let fraction =
          if int_lt (pos 1) total
          then fl.div (fl.of_int (to_int64 (total -ℤ rank))) (fl.of_int (to_int64 (total -ℤ pos 1)))
          else fl.of_int (pos 1) in
        fl.to_int
          (fl.round (fl.mul (fl.of_int base) (fl.add (fl.of_int (pos 1)) (fl.mul bonus fraction))))
