-- ===== src/Scorer/Users/Totals.antt =====
-- The scores of a user: nothing fails once the rows are read, and the totals are those of the groups.
use notmanytuples.Prelude.{
  String, ◌≡◌, refl, sym, ap, ◌∙◌, Option, none, some, List, [], ◌∷◌, ◌++◌, map,
}
use mathlib.Core.Path.{subst}
use mathlib.Core.List.{append-nil, append_assoc}
use notmanytuples.Prelude.Int.{ℤ, pos, ◌+int◌}
use notmanytuples.Prelude.Dict.{Dict}
use notmanytuples.Prelude.Float.{Float}
use notmanytuples.Config.{MergeRequestsConfig}
use notmanytuples.Models.{User, Pipeline, Flag, MergeRequest, OverriddenScore, get_project_name}
use notmanytuples.Deadlines.{TaskGroup, Deadlines, get_scoring_group}
use notmanytuples.Result.{ok}
use notmanytuples.Scorer.Errors.{wrap, deref}
use notmanytuples.Scorer.Environment.{Environment}
use notmanytuples.Scorer.Results.{ScoredTaskGroup, UserScores}
use notmanytuples.Scorer.Pipelines.{SubmissionBans, load_user_pipelines, load_user_flags}
use notmanytuples.Scorer.MergeRequests.{MergeRequestInfo, load_user_merge_requests}
use notmanytuples.Scorer.Leaderboard.{LeaderboardsMap}
use notmanytuples.Scorer.Scores.{UserRows}
use notmanytuples.Scorer.Users.{
  Provider, score_group, add_mark, score_groups, no_scores, load_requests, load_rows,
  calc_user_scores_impl,
}

-- The sum, in Go's `int`, of a number of each group.
unfoldable pub total_of : (ScoredTaskGroup → ℤ) → ℤ → List ScoredTaskGroup → ℤ
total_of f total [] = total
total_of f total (g ∷ gs) = total_of f (total +int f g) gs

module _ {F : Type 0} (fl : Float F) (env : Environment) (d : Deadlines F) (user : User) where
  deref-some : (o : Option String) (s : String) → o ≡ some s → deref o ≡ ok s
  unfolding deref
  deref-some o s h = rw h refl

  -- The table of merge requests answers for the user's project, where the workflow reads it.
  unfoldable pub Answers : Option (MergeRequestsConfig × Provider MergeRequest) → Type 0
  Answers none = Unit
  Answers (some (conf, provider)) =
      (requests : List MergeRequest) × (provider (get_project_name user) ≡ ok requests)

  load_requests_total :
      (bans : SubmissionBans) (requests_p : Option (MergeRequestsConfig × Provider MergeRequest))
      → Answers requests_p
      → (requests : Option (MergeRequestsConfig × List (String × MergeRequestInfo)))
        × (load_requests fl env user bans requests_p ≡ ok requests)
  unfolding Answers load_requests load_user_merge_requests wrap
  load_requests_total bans none h = (none, refl)
  load_requests_total bans (some (conf, provider)) (requests, h) = rw h (_, refl)

  -- The final mark after the groups.
  unfoldable pub mark_of : UserRows F → F → List (TaskGroup F) → F
  mark_of rows mark [] = mark
  mark_of rows mark (g ∷ gs) =
      mark_of rows
        (add_mark fl env mark (get_scoring_group d g) (score_group fl env d user rows g).score) gs

  score_groups_lem :
      (rows : UserRows F) (gs : List (TaskGroup F)) (s : UserScores F)
      → score_groups fl env d user rows s gs ≡ record {
        groups = s.groups ++ map (score_group fl env d user rows) gs;
        score = total_of (λ g. g.score) s.score (map (score_group fl env d user rows) gs);
        max_score =
            total_of (λ g. g.max_score) s.max_score (map (score_group fl env d user rows) gs);
        final_mark = mark_of rows s.final_mark gs;
        user = s.user;
      }
  unfolding score_groups total_of mark_of
  score_groups_lem rows [] s = ap (λ l. record s { groups = l }) (sym (append-nil s.groups))
  score_groups_lem rows (g ∷ gs) s =
      let regroup =
        append_assoc s.groups (score_group fl env d user rows g ∷ [])
          (map (score_group fl env d user rows) gs) in
      subst
        (λ l. score_groups fl env d user rows s (g ∷ gs) ≡ record {
          groups = l;
          score = total_of (λ g. g.score) s.score (map (score_group fl env d user rows) (g ∷ gs));
          max_score =
              total_of (λ g. g.max_score) s.max_score
                (map (score_group fl env d user rows) (g ∷ gs));
          final_mark = mark_of rows s.final_mark (g ∷ gs);
          user = s.user;
        })
        regroup (score_groups_lem rows gs _)

  pipelines_total :
      (pipelines_p : Provider Pipeline) (bans : SubmissionBans) (pipelines : List Pipeline)
      → pipelines_p (get_project_name user) ≡ ok pipelines
      → (picked : Dict String Pipeline) × (load_user_pipelines user pipelines_p bans ≡ ok picked)
  unfolding load_user_pipelines wrap
  pipelines_total pipelines_p bans pipelines h = rw h (_, refl)

  flags_total :
      (flags_p : Provider Flag) (login : String) (flags : List Flag)
      → user.gitlab_login ≡ some login
      → flags_p login ≡ ok flags
      → (picked : Dict String Flag) × (load_user_flags user flags_p ≡ ok picked)
  unfolding load_user_flags wrap
  flags_total flags_p login flags hl h = rw (deref-some user.gitlab_login login hl, h) (_, refl)

  load_rows_total :
      (pipelines_p : Provider Pipeline) (flags_p : Provider Flag)
      (requests_p : Option (MergeRequestsConfig × Provider MergeRequest))
      (overrides : List OverriddenScore) (boards : LeaderboardsMap F) (bans : SubmissionBans)
      (pipelines : List Pipeline) (flags : List Flag) (login : String)
      → user.gitlab_login ≡ some login
      → pipelines_p (get_project_name user) ≡ ok pipelines
      → flags_p login ≡ ok flags
      → Answers requests_p
      → (rows : UserRows F) × (load_rows fl env user pipelines_p flags_p requests_p overrides boards
            bans
          ≡ ok rows)
  unfolding load_rows
  load_rows_total pipelines_p flags_p requests_p overrides boards bans pipelines flags login hl hp
        hf hr =
      let (picked, e1) = pipelines_total pipelines_p bans pipelines hp in
      let (flags', e2) = flags_total flags_p login flags hl hf in
      let (requests, e3) = load_requests_total bans requests_p hr in
      rw (e1, e2, e3, deref-some user.gitlab_login login hl) (_, refl)

  calc_ok :
      (pipelines_p : Provider Pipeline) (flags_p : Provider Flag)
      (requests_p : Option (MergeRequestsConfig × Provider MergeRequest))
      (overrides : List OverriddenScore) (boards : LeaderboardsMap F) (bans : SubmissionBans)
      (rows : UserRows F)
      → load_rows fl env user pipelines_p flags_p requests_p overrides boards bans ≡ ok rows
      → calc_user_scores_impl fl env d user pipelines_p flags_p requests_p overrides boards bans
        ≡ ok (score_groups fl env d user rows (no_scores fl env user rows.login) d.assignments)
  unfolding calc_user_scores_impl
  calc_ok pipelines_p flags_p requests_p overrides boards bans rows h = rw h refl

  -- When the tables answer, and the user has a login, the scores are computed: the groups of the
  -- deadlines in their order, the totals of these groups and the mark of these groups.
  pub calc_user_scores_impl_total :
      (pipelines_p : Provider Pipeline) (flags_p : Provider Flag)
      (requests_p : Option (MergeRequestsConfig × Provider MergeRequest))
      (overrides : List OverriddenScore) (boards : LeaderboardsMap F) (bans : SubmissionBans)
      (pipelines : List Pipeline) (flags : List Flag) (login : String)
      → user.gitlab_login ≡ some login
      → pipelines_p (get_project_name user) ≡ ok pipelines
      → flags_p login ≡ ok flags
      → Answers requests_p
      → (rows : UserRows F) × (load_rows fl env user pipelines_p flags_p requests_p overrides boards
            bans
          ≡ ok rows)
        × (calc_user_scores_impl fl env d user pipelines_p flags_p requests_p overrides boards bans
            ≡ ok (record {
              groups = map (score_group fl env d user rows) d.assignments;
              score =
                  total_of
                    (λ g. g.score)
                    (pos 0)
                    (map (score_group fl env d user rows) d.assignments);
              max_score =
                  total_of
                    (λ g. g.max_score)
                    (pos 0)
                    (map (score_group fl env d user rows) d.assignments);
              final_mark = mark_of rows (fl.of_int (pos 0)) d.assignments;
              user = (no_scores fl env user rows.login).user;
            }))
  unfolding no_scores
  calc_user_scores_impl_total pipelines_p flags_p requests_p overrides boards bans pipelines flags
        login hl hp hf hr =
      let (rows, e) =
        load_rows_total pipelines_p flags_p requests_p overrides boards bans pipelines flags login
          hl hp hf hr in
      (
        rows,
        e,
        calc_ok pipelines_p flags_p requests_p overrides boards bans rows e
            ∙ ap ok (score_groups_lem rows d.assignments _),
      )
