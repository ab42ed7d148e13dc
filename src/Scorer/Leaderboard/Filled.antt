-- ===== src/Scorer/Leaderboard/Filled.antt =====
-- `fillLeaderboards`: every board shows the results of its task.
use mathlib.Core.Path.{subst}
use notmanytuples.Prelude.{
  String, ◌≡◌, ◌≢◌, inl, inr, refl, sym, ◌∙◌, ap, Bool, false, not, none, some, List, [], ◌∷◌,
  arith, ◌==◌, string_eq, eq_iff, Option-cases,
}
use notmanytuples.Prelude.Lists.{In, keep, In-keep, keep-All, keep-IsPairwise}
use notmanytuples.Prelude.Dict.{Dict, lookup, IsDict, IsDict-All}
use notmanytuples.Prelude.Best.{merge_by-IsDict}
use notmanytuples.Prelude.Float.{Float, FloatOrder}
use notmanytuples.Prelude.Time.{Time}
use notmanytuples.Result.{Result, ok, ◌>>=◌}
use notmanytuples.Deadlines.{Deadlines}
use notmanytuples.Scorer.Errors.{Error}
use notmanytuples.Scorer.Leaderboard.{
  GroupBenchmark, LeaderboardEntry, TaskLeaderboard, LeaderboardsMap, is_skipped, keep_best,
  pick_entries, rank_entries, fill_leaderboards, new_leaderboard, new_leaderboards,
  calc_leaderboards,
}
use notmanytuples.Scorer.Leaderboard.Entries.{
  on_board, entries_by_login, by_login_of, ranked_board, pick_entries-merge_by, lookup-pick_entries,
  lookup-rank_boards,
}
use notmanytuples.Scorer.Leaderboard.Boards.{
  board_deadline, on_time, board_or, lookup-new_leaderboards, on_board-eq,
}
use notmanytuples.Scorer.Leaderboard.Ranking.{ShowsResults, AreReports, rank_entries-ShowsResults}

module _ {F : Type 0} (fl : Float F) (order : FloatOrder fl) where
  -- Boards as `newLeaderboards` makes them.
  pub record AreNew (boards : LeaderboardsMap F) : Type 0 where
    pub no_entries :
        (task : String) (b : TaskLeaderboard F) → lookup task boards ≡ some b → b.entries ≡ []
    pub no_ranks :
        (task : String) (b : TaskLeaderboard F) → lookup task boards ≡ some b → b.ranks ≡ []

  -- What `rank_boards` makes of a new board.
  ranked-ShowsResults :
      (b : TaskLeaderboard F) (cs : List (GroupBenchmark F))
      → b.entries ≡ []
      → b.ranks ≡ []
      → AreReports fl cs
      → (b' : TaskLeaderboard F) × (ranked_board fl (some b) (by_login_of fl cs) ≡ some b')
        × (b'.deadline ≡ b.deadline)
        × ShowsResults fl b' cs
  unfolding rank_entries
  ranked-ShowsResults b [] fresh unranked reports = (
    b,
    refl,
    refl,
    record {
      best_result = λ e there. absurd (subst (In e) fresh there);
      rank = λ e there. absurd (subst (In e) fresh there);
      everyone = λ r there. absurd there;
      once = rw fresh tt;
      ordered = rw fresh tt;
    },
  )
  ranked-ShowsResults b (c ∷ cs) fresh unranked reports = (
    rank_entries fl b (entries_by_login fl (c ∷ cs)),
    refl,
    refl,
    rank_entries-ShowsResults fl order (c ∷ cs) reports b fresh unranked,
  )

  module _ (boards : LeaderboardsMap F) (rs : List (GroupBenchmark F)) where
    abbrev counts : GroupBenchmark F → Bool
    counts r = not (is_skipped boards r)

    on_board-AreReports :
        (task : String) → AreReports fl rs → AreReports fl (on_board fl boards task rs)
    on_board-AreReports task reports =
        let named = λ (r : GroupBenchmark F). r.task == task in
        record {
          pipelines =
              keep-IsPairwise named (λ a b. a.pipeline_id ≢ b.pipeline_id) (keep counts rs)
                (keep-IsPairwise counts (λ a b. a.pipeline_id ≢ b.pipeline_id) rs
                  reports.pipelines);
          metrics =
              keep-All named (λ r. fl.is_nan r.metric ≡ false) (keep counts rs)
                (keep-All counts (λ r. fl.is_nan r.metric ≡ false) rs reports.metrics);
        }

    -- A task with a result that counts has a board.
    has_board :
        (task : String) (by_login : Dict String (LeaderboardEntry F))
        → lookup task (pick_entries fl boards [] rs) ≡ some by_login
        → (b : TaskLeaderboard F) × (lookup task boards ≡ some b)
    has_board task by_login found =
        from_first (on_board fl boards task rs)
          (sym (lookup-pick_entries fl boards rs task) ∙ found)
          (λ r there.
            let (kept, named) = In-keep (λ r. r.task == task) r (keep counts rs) there in
            let (member, on_time) = In-keep counts r rs kept in
            elim (Option-cases (lookup task boards)) [
              | inr b ↦ b
              | inl missing ↦ absurd (unfold is_skipped in ground (arith, eq_iff r.task task))
            ])
      where
        from_first :
            (cs : List (GroupBenchmark F))
            → by_login_of fl cs ≡ some by_login
            → ((r : GroupBenchmark F)
                → In r cs
                → (b : TaskLeaderboard F) × (lookup task boards ≡ some b))
            → (b : TaskLeaderboard F) × (lookup task boards ≡ some b)
        from_first [] e f = absurd (ground arith)
        from_first (c ∷ cs) e f = f c (inl refl)

    -- On new boards and results with one result for each pipeline and numbers for metrics,
    -- `fillLeaderboards` succeeds, and the board of each task shows the results of the task that
    -- were made by the deadline.
    pub fill_leaderboards-ShowsResults :
        AreNew boards
        → AreReports fl rs
        → (boards' : LeaderboardsMap F) × (fill_leaderboards fl boards rs ≡ ok boards')
          × ((task : String) (b : TaskLeaderboard F)
              → lookup task boards ≡ some b
              → (b' : TaskLeaderboard F) × (lookup task boards' ≡ some b')
                × (b'.deadline ≡ b.deadline)
                × ShowsResults fl b' (on_board fl boards task rs))
          × ((task : String) → lookup task boards ≡ none → lookup task boards' ≡ none)
    unfolding fill_leaderboards
    fill_leaderboards-ShowsResults fresh reports =
        let best = pick_entries fl boards [] rs in
        let picked-IsDict : IsDict best = rw (pick_entries-merge_by fl boards [] rs) (
          merge_by-IsDict (λ (r : GroupBenchmark F). r.task) (keep_best fl) [] (keep counts rs)
            tt) in
        let (boards', filled, looked) = lookup-rank_boards fl boards best picked-IsDict (
          IsDict-All (λ e. (b : TaskLeaderboard F) × (lookup e.0 boards ≡ some b)) best
            picked-IsDict has_board) in
        (
          boards',
          filled,
          λ task b there.
              let (b', ranked, until, shows) =
                ranked-ShowsResults b (on_board fl boards task rs) (fresh.no_entries task b there)
                  (fresh.no_ranks task b there) (on_board-AreReports task reports) in
              (
                b',
                looked task
                    ∙ ap (λ o. ranked_board fl o (lookup task best)) there
                    ∙ ap (ranked_board fl (some b)) (lookup-pick_entries fl boards rs task)
                    ∙ ranked,
                until,
                shows,
              ),
          λ task missing. looked task ∙ ap (λ o. ranked_board fl o (lookup task best)) missing,
        )

module _ {F : Type 0} (d : Deadlines F) where
  abbrev IsNew : TaskLeaderboard F → Type 0
  IsNew b = (b.entries ≡ []) × (b.ranks ≡ [])

  abbrev AllNew : LeaderboardsMap F → Type 0
  AllNew boards = (task : String) (b : TaskLeaderboard F) → lookup task boards ≡ some b → IsNew b

  new_leaderboards_new : AllNew (new_leaderboards d)
  unfolding new_leaderboard
  new_leaderboards_new task b found = elim (Option-cases (board_deadline d.assignments task)) [
    | inl unlisted ↦ absurd (ground (arith, unlisted, lookup-new_leaderboards d task))
    | inr (deadline, listed) ↦
        let same : new_leaderboard deadline ≡ b =
          ground (arith, listed, lookup-new_leaderboards d task) in
        subst IsNew same (refl, refl)
  ]

  module _ (fl : Float F) (order : FloatOrder fl) where
    -- Where the database answers with one result for each pipeline and numbers for metrics,
    -- `CalcLeaderboards` succeeds. A task has a board exactly if a group lists it with a leaderboard;
    -- the board has the deadline of the last such group, and shows the results of the task that were
    -- not made after it.
    pub calc_leaderboards-ShowsResults :
        (provider : String → Result Error (List (GroupBenchmark F))) (group : String)
        (rs : List (GroupBenchmark F))
        → provider group ≡ ok rs
        → AreReports fl rs
        → (boards : LeaderboardsMap F) × (calc_leaderboards fl provider d group ≡ ok boards)
          × ((task : String) (deadline : Time)
              → board_deadline d.assignments task ≡ some deadline
              → (b : TaskLeaderboard F) × (lookup task boards ≡ some b)
                × (b.deadline ≡ deadline)
                × ShowsResults fl b (on_time deadline task rs))
          × ((task : String) → board_deadline d.assignments task ≡ none → lookup task boards ≡ none)
    unfolding calc_leaderboards new_leaderboard
    calc_leaderboards-ShowsResults provider group rs answered reports =
        let (boards, calculated, shown, others) =
          of_boards (new_leaderboards d) new_leaderboards_new in
        (
          boards,
          calculated,
          λ task deadline listed.
              let found : lookup task (new_leaderboards d) ≡ some (new_leaderboard deadline) =
                lookup-new_leaderboards d task ∙ ap (λ o. board_or o none) listed in
              let (b, there, until, shows) = shown task (new_leaderboard deadline) found in
              (
                b,
                there,
                until,
                subst (ShowsResults fl b)
                    (on_board-eq fl (new_leaderboards d) task deadline rs found) shows,
              ),
          λ task unlisted.
              others task (lookup-new_leaderboards d task ∙ ap (λ o. board_or o none) unlisted),
        )
      where
        of_boards :
            (boards : LeaderboardsMap F)
            → AllNew boards
            → (boards' : LeaderboardsMap F) × ((elim boards [
              | [] ↦ ok []
              | b ∷ bs ↦ provider group >>= fill_leaderboards fl (b ∷ bs)
            ])
                ≡ ok boards')
              × ((task : String) (b : TaskLeaderboard F)
                  → lookup task boards ≡ some b
                  → (b' : TaskLeaderboard F) × (lookup task boards' ≡ some b')
                    × (b'.deadline ≡ b.deadline)
                    × ShowsResults fl b' (on_board fl boards task rs))
              × ((task : String) → lookup task boards ≡ none → lookup task boards' ≡ none)
        of_boards [] new = (
          [],
          refl,
          λ task b found. absurd (unfold lookup in ground arith),
          λ task missing. missing,
        )
        of_boards (b ∷ bs) new =
            let (boards', filled, shows, others) =
              fill_leaderboards-ShowsResults fl order (b ∷ bs) rs
                (record {
                  no_entries = λ task b found. (new task b found).0;
                  no_ranks = λ task b found. (new task b found).1;
                })
                reports in
            (boards', rw answered filled, shows, others)
