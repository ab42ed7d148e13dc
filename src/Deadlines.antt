-- ===== src/Deadlines.antt =====
-- internal/deadlines/deadlines.go and scoring.go: the course's tasks, and how they are scored.
pub mod Groups
pub mod Fetcher
use notmanytuples.Prelude.{
  ℕ, zero, suc, ◌+◌, String, Bool, true, false, Option, none, some, List, [], ◌∷◌, if◌then◌else◌,
  ◌==◌, string_eq,
}
use notmanytuples.Prelude.Int.{ℤ, pos, int_eq, ◌+int◌}
use notmanytuples.Prelude.Lists.{get_elem?}
use notmanytuples.Prelude.Dict.{Dict, lookup, insert}
use notmanytuples.Prelude.Time.{Time, Duration, before, time_add, time_sub}
use notmanytuples.Prelude.Float.{Float}
use notmanytuples.Result.{Result, ok, err, ◌>>=◌}

-- The implementations of the interface `ScoringPolicy`, with their fields.
pub data ScoringPolicy (F : Type 0) : Type 0 where
  exponential : (multiplier : Duration) (threshold : F) → ScoringPolicy F
  linear : (after : Duration) (multiplier : F) → ScoringPolicy F

pub record ScoringPolicySpec (F : Type 0) : Type 0 where
  pub name : String
  pub kind : String
  pub policy : ScoringPolicy F

pub record ScoringGroup (F : Type 0) : Type 0 where
  pub name : String
  pub weight : F
  pub max_score : ℤ
  pub policy : String

pub record Scoring (F : Type 0) : Type 0 where
  pub policies : List (ScoringPolicySpec F)
  pub groups : List (ScoringGroup F)
  pub default_group : String
  pub final_deadline : Option Time
  pub retake_penalty : F

pub record LeaderboardSpec (F : Type 0) : Type 0 where
  pub bonus : F

pub record Task (F : Type 0) : Type 0 where
  pub task : String
  pub score : ℤ
  pub crashme : Bool
  pub leaderboard : Option (LeaderboardSpec F)

pub record TaskGroup (F : Type 0) : Type 0 where
  pub title : String
  pub group : String
  pub deadline : Time
  pub start : Time
  pub tasks : List (Task F)

-- A pointer into `scoring.groups` is the index of the element.
pub record Deadlines (F : Type 0) : Type 0 where
  pub assignments : List (TaskGroup F)
  pub scoring : Scoring F
  pub policies : Dict String (ScoringPolicy F)
  pub groups : Dict String ℕ

module _ {F : Type 0} (fl : Float F) where
  open fl use {of_int, add, sub, mul, div, to_int, max, exp, seconds}

  unfoldable pub exponential_score : Duration → F → ℤ → Time → Time → ℤ
  exponential_score multiplier threshold max_score deadline submit_time =
      if before submit_time deadline
      then max_score
      else let delta_seconds = seconds (time_sub submit_time deadline) in
        let e = div delta_seconds (seconds multiplier) in
        to_int (mul (max threshold (div (of_int (pos 1)) (exp e))) (of_int max_score))

  unfoldable pub linear_score : Duration → F → ℤ → Time → Time → ℤ
  linear_score after multiplier max_score deadline submit_time =
      if before submit_time deadline
      then max_score
      else let finish = time_add deadline after in
        let delta = div (seconds (time_sub submit_time deadline)) (seconds after) in
        let mult =
          if before submit_time finish
          then add (sub (of_int (pos 1)) delta) (mul multiplier delta)
          else multiplier in
        to_int (mul (of_int max_score) mult)

  -- The method `Score` of the interface.
  unfoldable pub policy_score : ScoringPolicy F → ℤ → Time → Time → ℤ
  unfolding exponential_score linear_score
  policy_score (exponential multiplier threshold) = exponential_score multiplier threshold
  policy_score (linear after multiplier) = linear_score after multiplier

pub data BuildError : Type 0 where
  no_title : ℕ → BuildError
  unknown_scoring_group : String → String → BuildError
  -- a write through a nil pointer, which panics
  nil_dereference : BuildError

-- What `maxScores[name]` holds after `+= total`; a missing entry reads as 0.
abbrev pub plus_score : Option ℤ → ℤ → ℤ
plus_score none total = pos 0 +int total
plus_score (some old) total = old +int total

-- `maxScores[name] += totalScore`
add_score : String → ℤ → Dict String ℤ → Dict String ℤ
add_score name total m = insert name (plus_score (lookup name m) total) m

module _ {F : Type 0} where
  unfoldable pub get_scoring_group : Deadlines F → TaskGroup F → Option (ScoringGroup F)
  get_scoring_group d group =
      let scoring_group_name = if group.group == "" then d.scoring.default_group else group.group in
      elim (lookup scoring_group_name d.groups) [
        | none ↦ none
        | some i ↦ get_elem? d.scoring.groups i
      ]

  unfoldable pub get_scoring_policy : Deadlines F → TaskGroup F → Option (ScoringPolicy F)
  get_scoring_policy d group = elim (get_scoring_group d group) [
    | none ↦ none
    | some g ↦ lookup g.policy d.policies
  ]

  index_policies :
      Dict String (ScoringPolicy F) → List (ScoringPolicySpec F) → Dict String (ScoringPolicy F)
  index_policies m [] = m
  index_policies m (spec ∷ specs) = index_policies (insert spec.name spec.policy m) specs

  index_groups : ℕ → Dict String ℕ → List (ScoringGroup F) → Dict String ℕ
  index_groups i m [] = m
  index_groups i m (g ∷ gs) = index_groups (suc i) (insert g.name i m) gs

  sum_scores : ℤ → List (Task F) → ℤ
  sum_scores total [] = total
  sum_scores total (t ∷ ts) = sum_scores (total +int t.score) ts

  collect_max_scores :
      Deadlines F → ℕ → Dict String ℤ → List (TaskGroup F) → Result BuildError (Dict String ℤ)
  collect_max_scores d i m [] = ok m
  collect_max_scores d i m (a ∷ as') = elim (a.title == "") [
    | true ↦ err (no_title (i + 1))
    | false ↦ elim (get_scoring_group d a) [
      | none ↦ err (unknown_scoring_group a.title a.group)
      | some g ↦
          collect_max_scores d (suc i)
            (if int_eq g.max_score (pos 0)
              then add_score g.name (sum_scores (pos 0) a.tasks) m
              else m)
            as'
    ]
  ]

  set_max_score : List (ScoringGroup F) → ℕ → ℤ → List (ScoringGroup F)
  set_max_score [] i v = []
  set_max_score (g ∷ gs) zero v = record g { max_score = v } ∷ gs
  set_max_score (g ∷ gs) (suc i) v = g ∷ set_max_score gs i v

  store_max_scores : Deadlines F → Dict String ℤ → Result BuildError (Deadlines F)
  store_max_scores d [] = ok d
  store_max_scores d ((k, v) ∷ m) = elim (lookup k d.groups) [
    | none ↦ err nil_dereference
    | some i ↦
        store_max_scores
          (record d { scoring = record d.scoring { groups = set_max_score d.scoring.groups i v } })
          m
  ]

  -- The two maps, before the assignments are read.
  unfoldable pub index_scoring : Deadlines F → Deadlines F
  unfolding index_policies index_groups
  index_scoring d = record d {
    policies = index_policies [] d.scoring.policies;
    groups = index_groups 0 [] d.scoring.groups;
  }

  unfoldable pub build_scoring_groups : Deadlines F → Result BuildError (Deadlines F)
  unfolding index_scoring get_scoring_group collect_max_scores add_score sum_scores store_max_scores
      set_max_score
  build_scoring_groups d = do
    max_scores ← collect_max_scores (index_scoring d) 0 [] d.assignments
    store_max_scores (index_scoring d) max_scores

  find_task_in : String → TaskGroup F → List (Task F) → Option (Task F × TaskGroup F)
  find_task_in name group [] = none
  find_task_in name group (t ∷ ts) =
      if t.task == name then some (t, group) else find_task_in name group ts

  find_task_among : String → List (TaskGroup F) → Option (Task F × TaskGroup F)
  find_task_among name [] = none
  find_task_among name (g ∷ gs) = elim (find_task_in name g g.tasks) [
    | none ↦ find_task_among name gs
    | some found ↦ some found
  ]

  unfoldable pub find_task : Deadlines F → String → Option (Task F × TaskGroup F)
  unfolding find_task_in find_task_among
  find_task d name = find_task_among name d.assignments

  unfoldable pub has_task : Deadlines F → String → Bool
  unfolding find_task
  has_task d name = elim (find_task d name) [ none ↦ false | some _ ↦ true ]
