-- ===== src/Scorer/Leaderboard/Boards.antt =====
-- Which tasks have a leaderboard, until when, and which results count for it.
use notmanytuples.Prelude.{
  String, ◌≡◌, refl, ap, ◌∙◌, inl, inr, Bool, true, false, not, ◌&&◌, Option, none, some, List, [],
  ◌∷◌, if◌then◌else◌, ◌==◌, string_eq, eq_iff, Bool-cases, Option-cases, arith,
}
use notmanytuples.Prelude.Lists.{keep, any_of}
use notmanytuples.Prelude.Dict.{lookup, insert, lookup-insert}
use notmanytuples.Prelude.Time.{Time, after}
use notmanytuples.Prelude.Float.{Float}
use notmanytuples.Deadlines.{Task, TaskGroup, Deadlines}
use notmanytuples.Scorer.Leaderboard.{
  GroupBenchmark, TaskLeaderboard, LeaderboardsMap, new_leaderboard, add_task_boards,
  add_group_boards, new_leaderboards, is_skipped,
}
use notmanytuples.Scorer.Leaderboard.Entries.{on_board}

module _ {F : Type 0} where
  -- The task has this name and a leaderboard.
  abbrev pub is_ranked : String → Task F → Bool
  is_ranked name t = t.task == name && elim t.leaderboard [ none ↦ false | some _ ↦ true ]

  -- The deadline of the last group that lists the task with a leaderboard.
  abbrev pub board_deadline : List (TaskGroup F) → String → Option Time
  board_deadline [] name = none
  board_deadline (g ∷ gs) name = elim (board_deadline gs name) [
    | some deadline ↦ some deadline
    | none ↦ if any_of (is_ranked name) g.tasks then some g.deadline else none
  ]

  -- The results of the task that were made by the deadline.
  abbrev pub on_time : Time → String → List (GroupBenchmark F) → List (GroupBenchmark F)
  on_time deadline name = keep (λ r. r.task == name && not (after r.submitted_at deadline))

  -- A board of a deadline, if there is one, or else what there was.
  abbrev pub board_or : Option Time → Option (TaskLeaderboard F) → Option (TaskLeaderboard F)
  board_or none o = o
  board_or (some deadline) o = some (new_leaderboard deadline)

  lookup-add_task_boards :
      (deadline : Time) (boards : LeaderboardsMap F) (ts : List (Task F)) (name : String)
      → lookup name (add_task_boards deadline boards ts) ≡ (
          if any_of (is_ranked name) ts
          then some (new_leaderboard deadline)
          else lookup name boards)
  unfolding add_task_boards
  lookup-add_task_boards deadline boards [] name = refl
  lookup-add_task_boards deadline boards (t ∷ ts) name = elim (Option-cases t.leaderboard) [
    | inl plain ↦
        rw (add_task_boards, plain)
          (lookup-add_task_boards deadline boards ts name ∙ ground (arith, plain))
    | inr (board, ranked) ↦
        let boards' = insert t.task (new_leaderboard deadline) boards in
        rw (add_task_boards, ranked)
          (lookup-add_task_boards deadline boards' ts name
            ∙ ground (arith, ranked, lookup-insert t.task name (new_leaderboard deadline) boards))
  ]

  lookup-add_group_boards :
      (boards : LeaderboardsMap F) (gs : List (TaskGroup F)) (name : String)
      → lookup name (add_group_boards boards gs)
        ≡ board_or (board_deadline gs name) (lookup name boards)
  unfolding add_group_boards
  lookup-add_group_boards boards [] name = refl
  lookup-add_group_boards boards (g ∷ gs) name =
      lookup-add_group_boards (add_task_boards g.deadline boards g.tasks) gs name
      ∙ ground (arith, lookup-add_task_boards g.deadline boards g.tasks name)

  pub lookup-new_leaderboards :
      (d : Deadlines F) (name : String)
      → lookup name (new_leaderboards d) ≡ board_or (board_deadline d.assignments name) none
  unfolding new_leaderboards lookup
  lookup-new_leaderboards d name = lookup-add_group_boards [] d.assignments name

  pub on_board-eq :
      (fl : Float F) (boards : LeaderboardsMap F) (name : String) (deadline : Time)
      (rs : List (GroupBenchmark F))
      → lookup name boards ≡ some (new_leaderboard deadline)
      → on_board fl boards name rs ≡ on_time deadline name rs
  unfolding is_skipped new_leaderboard
  on_board-eq fl boards name deadline [] h = refl
  on_board-eq fl boards name deadline (r ∷ rs) h =
      let rest = on_board-eq fl boards name deadline rs h in
      elim (Bool-cases (r.task == name)) [
        | inl own ↦
            let found : lookup r.task boards ≡ some (new_leaderboard deadline) =
              ap (λ t. lookup t boards) ((eq_iff r.task name).0 own) ∙ h in
            ground (arith, own, found, rest)
        | inr other ↦ ground (arith, other, rest)
      ]
