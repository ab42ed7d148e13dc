-- ===== src/Scorer/Leaderboard/Entries.antt =====
-- Which entries stand on a board, and that every board has its ranks.
use notmanytuples.Prelude.{
  String, ◌≡◌, inl, inr, refl, ◌∙◌, not, Option, none, some, List, [], ◌∷◌, map, arith, ◌==◌,
  string_eq, eq_iff, Bool-cases,
}
use notmanytuples.Prelude.Lists.{All, All-map, keep}
use notmanytuples.Prelude.Dict.{Dict, lookup, insert, lookup-insert, IsDict}
use notmanytuples.Prelude.Best.{challenge, best, merge_by, merge_all, lookup-merge_by}
use notmanytuples.Prelude.Float.{Float}
use notmanytuples.Result.{ok}
use notmanytuples.Scorer.Leaderboard.{
  GroupBenchmark, LeaderboardEntry, TaskLeaderboard, LeaderboardsMap, entry_of, is_skipped,
  entry_less, keep_best, pick_entries, rank_entries, rank_boards,
}

module _ {F : Type 0} (fl : Float F) where
  -- The results that count for a task: made by its deadline.
  abbrev pub on_board :
      LeaderboardsMap F → String → List (GroupBenchmark F) → List (GroupBenchmark F)
  on_board boards task rs = keep (λ r. r.task == task) (keep (λ r. not (is_skipped boards r)) rs)

  pub pick_entries-merge_by :
      (boards : LeaderboardsMap F) (m : Dict String (Dict String (LeaderboardEntry F)))
      (rs : List (GroupBenchmark F))
      → pick_entries fl boards m rs
        ≡ merge_by (λ r. r.task) (keep_best fl) m (keep (λ r. not (is_skipped boards r)) rs)
  unfolding pick_entries merge_by
  pick_entries-merge_by boards m [] = refl
  pick_entries-merge_by boards m (r ∷ rs) =
      let m' = insert r.task (keep_best fl (lookup r.task m) r) m in
      elim (Bool-cases (is_skipped boards r)) [
        | inl h ↦ rw (h, pick_entries) (pick_entries-merge_by boards m rs)
        | inr h ↦ rw (h, pick_entries) (pick_entries-merge_by boards m' rs)
      ]

  -- The entries of one task, by login.
  abbrev pub entries_by_login : List (GroupBenchmark F) → Dict String (LeaderboardEntry F)
  entries_by_login =
      merge_by (λ r. r.gitlab_login) (λ o r. challenge (entry_less fl) o (entry_of r)) []

  merge_all-keep_best :
      (m : Dict String (LeaderboardEntry F)) (rs : List (GroupBenchmark F))
      → merge_all (keep_best fl) (some m) rs
        ≡ some
            (merge_by (λ r. r.gitlab_login) (λ o r. challenge (entry_less fl) o (entry_of r)) m rs)
  unfolding merge_all merge_by keep_best
  merge_all-keep_best m [] = refl
  merge_all-keep_best m (r ∷ rs) =
      merge_all-keep_best
        (insert r.gitlab_login (challenge (entry_less fl) (lookup r.gitlab_login m) (entry_of r)) m)
        rs

  abbrev pub by_login_of : List (GroupBenchmark F) → Option (Dict String (LeaderboardEntry F))
  by_login_of [] = none
  by_login_of (r ∷ rs) = some (entries_by_login (r ∷ rs))

  pub lookup-pick_entries :
      (boards : LeaderboardsMap F) (rs : List (GroupBenchmark F)) (task : String)
      → lookup task (pick_entries fl boards [] rs) ≡ by_login_of (on_board boards task rs)
  unfolding lookup
  lookup-pick_entries boards rs task = rw (pick_entries-merge_by boards [] rs) (
      lookup-merge_by (λ (r : GroupBenchmark F). r.task) (keep_best fl) task []
        (keep (λ r. not (is_skipped boards r)) rs)
      ∙ from_none (on_board boards task rs))
    where
      from_none : (rs : List (GroupBenchmark F)) → merge_all (keep_best fl) none rs ≡ by_login_of rs
      from_none [] = unfold merge_all in refl
      from_none (r ∷ rs) =
          unfold merge_all merge_by keep_best in merge_all-keep_best (keep_best fl none r) rs

  merge_all-map :
      (o : Option (LeaderboardEntry F)) (rs : List (GroupBenchmark F))
      → merge_all (λ o r. challenge (entry_less fl) o (entry_of r)) o rs
        ≡ best (entry_less fl) o (map entry_of rs)
  unfolding merge_all
  merge_all-map o [] = refl
  merge_all-map o (r ∷ rs) = merge_all-map (some (challenge (entry_less fl) o (entry_of r))) rs

  -- The results of one login.
  abbrev pub of_login : String → List (GroupBenchmark F) → List (GroupBenchmark F)
  of_login login = keep (λ r. r.gitlab_login == login)

  pub lookup-entries_by_login :
      (rs : List (GroupBenchmark F)) (login : String)
      → lookup login (entries_by_login rs)
        ≡ best (entry_less fl) none (map entry_of (of_login login rs))
  unfolding lookup
  lookup-entries_by_login rs login =
      lookup-merge_by (λ (r : GroupBenchmark F). r.gitlab_login)
        (λ o r. challenge (entry_less fl) o (entry_of r)) login [] rs
      ∙ merge_all-map none (of_login login rs)

  -- Where every task has a board, no write goes through a nil pointer, and each board is ranked once.
  abbrev pub ranked_board :
      Option (TaskLeaderboard F)
      → Option (Dict String (LeaderboardEntry F))
      → Option (TaskLeaderboard F)
  ranked_board none by_login = none
  ranked_board (some board) none = some board
  ranked_board (some board) (some by_login) = some (rank_entries fl board by_login)

  abbrev pub HasBoards : LeaderboardsMap F → Dict String (Dict String (LeaderboardEntry F)) → Type 0
  HasBoards boards best =
      All (λ e. (board : TaskLeaderboard F) × (lookup e.0 boards ≡ some board)) best

  HasBoards-insert :
      (boards : LeaderboardsMap F) (task : String) (b : TaskLeaderboard F)
      (best : Dict String (Dict String (LeaderboardEntry F)))
      → HasBoards boards best
      → HasBoards (insert task b boards) best
  HasBoards-insert boards task b best h =
      All-map best
        (λ e q.
          let (board, there) = q in
          elim (Bool-cases (task == e.0)) [
            | inl p ↦ (b, ground (arith, lookup-insert task e.0 b boards))
            | inr p ↦ (board, ground (arith, lookup-insert task e.0 b boards))
          ])
        h

  pub lookup-rank_boards :
      (boards : LeaderboardsMap F) (best : Dict String (Dict String (LeaderboardEntry F)))
      → IsDict best
      → HasBoards boards best
      → (boards' : LeaderboardsMap F) × (rank_boards fl boards best ≡ ok boards')
        × ((t : String) → lookup t boards' ≡ ranked_board (lookup t boards) (lookup t best))
  unfolding rank_boards
  lookup-rank_boards boards [] d h = (boards, refl, λ t. unfold lookup in ground arith)
  lookup-rank_boards boards ((task, by_login) ∷ best) d h =
      let (board, there) = h.0 in
      let board' = rank_entries fl board by_login in
      let (boards', done, looked) =
        lookup-rank_boards (insert task board' boards) best d.1
          (HasBoards-insert boards task board' best h.1) in
      (
        boards',
        rw (there, rank_boards) done,
        λ t.
            looked t
            ∙ (unfold lookup in
                ground (arith, lookup-insert task t board' boards, eq_iff task t, there, d.0)),
      )
