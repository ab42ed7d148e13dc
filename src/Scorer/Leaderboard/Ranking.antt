-- ===== src/Scorer/Leaderboard/Ranking.antt =====
-- What the leaderboard of a task shows, in terms of the results of the task alone.
use mathlib.Core.Path.{subst}
use notmanytuples.Prelude.{
  ℕ, suc, String, ◌≡◌, ◌≢◌, ◌⊎◌, inl, inr, refl, sym, ◌∙◌, ap, true, false, some, List, [], ◌∷◌,
  ◌++◌, map, arith, ◌==◌, string_eq, eq_iff, Option-cases,
}
use notmanytuples.Prelude.Int.{pos}
use notmanytuples.Prelude.Lists.{
  In, All, All-In, All-intro, count_if, In-keep, In-keep_of, IsPairwise, IsPairwise-map,
  unique_by_key, In-map, In-map_of,
}
use notmanytuples.Prelude.Dict.{Dict, lookup, values, IsDict, In-values, lookup-In}
use notmanytuples.Prelude.Best.{IsBest, challenge, best-IsBest, merge_all-none, merge_by-IsDict}
use notmanytuples.Prelude.Sort.{
  sort_slice, sort_slice-In, In-sort_slice, count_if-sort_slice, IsRanked, sort_slice-IsRanked,
  sort_slice-IsPairwise, IsComparable,
}
use notmanytuples.Prelude.Float.{Float, FloatOrder}
use notmanytuples.Scorer.Leaderboard.{
  GroupBenchmark, LeaderboardEntry, TaskLeaderboard, rank_of, entry_of, entry_less, rank_entries,
}
use notmanytuples.Scorer.Leaderboard.Order.{entry_less-IsStrict, entry_less_total}
use notmanytuples.Scorer.Leaderboard.Ranks.{OtherLogin, OtherLogin-symm, rank_of-rank_entries}
use notmanytuples.Scorer.Leaderboard.Entries.{of_login, entries_by_login, lookup-entries_by_login}

module _ {F : Type 0} (fl : Float F) where
  -- The board of a task shows the results `rs`.
  pub record ShowsResults (board : TaskLeaderboard F) (rs : List (GroupBenchmark F)) : Type 0 where
    -- an entry is the best result of its student, and its rank is one more than the number of
    -- entries that beat it
    pub best_result :
        (e : LeaderboardEntry F)
        → In e board.entries
        → IsBest (entry_less fl) e (map entry_of (of_login fl e.gitlab_login rs))
    pub rank :
        (e : LeaderboardEntry F)
        → In e board.entries
        → rank_of board e.gitlab_login
          ≡ some (pos (suc (count_if (λ y. entry_less fl y e) board.entries)))
    -- who has a result has an entry, and no one has two
    pub everyone :
        (r : GroupBenchmark F)
        → In r rs
        → (e : LeaderboardEntry F) × In e board.entries × (e.gitlab_login ≡ r.gitlab_login)
    pub once : IsPairwise OtherLogin board.entries
    -- the entries stand in the order of their ranks
    pub ordered : IsRanked (entry_less fl) board.entries

  -- Of each pipeline there is one result, and every metric is a number.
  pub record AreReports (rs : List (GroupBenchmark F)) : Type 0 where
    pub pipelines : IsPairwise (λ a b. a.pipeline_id ≢ b.pipeline_id) rs
    pub metrics : All (λ r. fl.is_nan r.metric ≡ false) rs

  module _ (order : FloatOrder fl) (rs : List (GroupBenchmark F)) where
    -- What the map of one task holds at a login.
    entry_at :
        (l : String) (e : LeaderboardEntry F)
        → lookup l (entries_by_login fl rs) ≡ some e
        → IsBest (entry_less fl) e (map entry_of (of_login fl l rs))
          × (e.gitlab_login ≡ l)
          × ((r : GroupBenchmark F) × In r rs × (e ≡ entry_of r))
    entry_at l e found =
        let best_e =
          best-IsBest (entry_less fl) (entry_less-IsStrict fl order)
            (map entry_of (of_login fl l rs)) e (sym (lookup-entries_by_login fl rs l) ∙ found) in
        let (r, there, same) = In-map entry_of e (of_login fl l rs) best_e.member in
        let (member, login) = In-keep (λ r. r.gitlab_login == l) r rs there in
        (
          best_e,
          ap (λ (x : LeaderboardEntry F). x.gitlab_login) same
              ∙ (unfold entry_of in (eq_iff r.gitlab_login l).0 login),
          (r, member, same),
        )

    has_entry :
        (r : GroupBenchmark F)
        → In r rs
        → (e : LeaderboardEntry F) × (lookup r.gitlab_login (entries_by_login fl rs) ≡ some e)
    has_entry r there =
        let l = r.gitlab_login in
        elim (Option-cases (lookup l (entries_by_login fl rs))) [
          | inr found ↦ found
          | inl missing ↦
              let no_result =
                merge_all-none (challenge (entry_less fl)) (map entry_of (of_login fl l rs))
                  (sym (lookup-entries_by_login fl rs l) ∙ missing) in
              absurd (
                subst (In (entry_of r)) no_result (
                  In-map_of entry_of r (of_login fl l rs)
                    (In-keep_of (λ x. x.gitlab_login == l) r rs there ((eq_iff l l).1 refl))))
        ]

    entries-IsDict : IsDict (entries_by_login fl rs)
    entries-IsDict =
        merge_by-IsDict (λ (r : GroupBenchmark F). r.gitlab_login)
          (λ o r. challenge (entry_less fl) o (entry_of r)) [] rs tt

    other_logins :
        (m : Dict String (LeaderboardEntry F))
        → IsDict m
        → ((l : String) (e : LeaderboardEntry F) → lookup l m ≡ some e → e.gitlab_login ≡ l)
        → IsPairwise OtherLogin (values m)
    other_logins [] d named = tt
    other_logins ((k, v) ∷ m) d named = (
      All-intro (OtherLogin v) (values m) (λ w there.
          let (j, found) = In-values w m d.1 there in
          let k_named : v.gitlab_login ≡ k =
            named k v (unfold lookup in ground (arith, eq_iff k k)) in
          let j_named : w.gitlab_login ≡ j =
            named j w (unfold lookup in ground (arith, eq_iff k j, d.0)) in
          ground (arith, eq_iff v.gitlab_login w.gitlab_login, d.0, eq_iff k j)),
      other_logins m d.1
          (λ l e found. named l e (unfold lookup in ground (arith, eq_iff k l, d.0))),
    )

    module _ (reports : AreReports rs) where
      comparable : IsComparable (entry_less fl) (values (entries_by_login fl rs))
      comparable =
          let m = entries_by_login fl rs in
          let named = λ (l : String) (e : LeaderboardEntry F) (found : lookup l m ≡ some e).
            (entry_at l e found).1 in
          IsPairwise-map OtherLogin (λ a b. (entry_less fl a b ≡ true) ⊎ (entry_less fl b a ≡ true))
            (values m)
            (λ a b ma mb other.
              let (j, at_a) = In-values a m entries-IsDict ma in
              let (k, at_b) = In-values b m entries-IsDict mb in
              let (best_a, named_a, from_a) = entry_at j a at_a in
              let (best_b, named_b, from_b) = entry_at k b at_b in
              let (ra, in_a, is_a) = from_a in
              let (rb, in_b, is_b) = from_b in
              entry_less_total fl order a b
                (subst (λ (x : LeaderboardEntry F). fl.is_nan x.metric ≡ false) (sym is_a)
                  (unfold entry_of in
                    All-In (λ r. fl.is_nan r.metric ≡ false) ra rs reports.metrics in_a))
                (subst (λ (x : LeaderboardEntry F). fl.is_nan x.metric ≡ false) (sym is_b)
                  (unfold entry_of in
                    All-In (λ r. fl.is_nan r.metric ≡ false) rb rs reports.metrics in_b))
                (λ e.
                  let same : ra ≡ rb =
                    unique_by_key (λ (r : GroupBenchmark F). r.pipeline_id) rs ra rb
                      reports.pipelines in_a in_b
                      (unfold entry_of in
                        sym (ap (λ (x : LeaderboardEntry F). x.pipeline_id) is_a)
                        ∙ e
                        ∙ ap (λ (x : LeaderboardEntry F). x.pipeline_id) is_b) in
                  let logins : a.gitlab_login ≡ b.gitlab_login =
                    ap (λ (x : LeaderboardEntry F). x.gitlab_login)
                      (is_a ∙ ap entry_of same ∙ sym is_b) in
                  ground (arith, eq_iff a.gitlab_login b.gitlab_login)))
            (other_logins m entries-IsDict named)

      pub rank_entries-ShowsResults :
          (board : TaskLeaderboard F)
          → board.entries ≡ []
          → board.ranks ≡ []
          → ShowsResults (rank_entries fl board (entries_by_login fl rs)) rs
      unfolding rank_entries
      rank_entries-ShowsResults board fresh unranked =
          let m = entries_by_login fl rs in
          let less = entry_less fl in
          let shown = (rank_entries fl board m).entries in
          let others = other_logins m entries-IsDict (λ l e found. (entry_at l e found).1) in
          let eq : shown ≡ sort_slice less (values m) =
            ap (λ es. sort_slice less (es ++ values m)) fresh in
          let from_shown = λ (e : LeaderboardEntry F) (there : In e shown).
            In-sort_slice less e (values m) (subst (In e) eq there) in
          record {
            best_result = λ e there.
                let (l, found) = In-values e m entries-IsDict (from_shown e there) in
                let (best_e, named, from) = entry_at l e found in
                subst (λ l. IsBest less e (map entry_of (of_login fl l rs))) (sym named) best_e;
            rank = λ e there.
                rank_of-rank_entries fl order board m e fresh unranked others comparable
                  (from_shown e there)
                ∙ ap (λ (n : ℕ). some (pos (suc n)))
                    (sym (count_if-sort_slice less (λ y. less y e) (values m))
                      ∙ ap (count_if (λ y. less y e)) (sym eq));
            everyone = λ r there.
                let (e, found) = has_entry r there in
                (
                  e,
                  subst (In e) (sym eq)
                      (sort_slice-In less e (values m) (lookup-In r.gitlab_login e m found)),
                  (entry_at r.gitlab_login e found).1,
                );
            once =
                subst (IsPairwise OtherLogin) (sym eq)
                  (sort_slice-IsPairwise less OtherLogin OtherLogin-symm (values m) others);
            ordered =
                subst (IsRanked less) (sym eq)
                  (sort_slice-IsRanked less (entry_less-IsStrict fl order) (values m) comparable);
          }
