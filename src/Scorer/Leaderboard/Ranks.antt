-- ===== src/Scorer/Leaderboard/Ranks.antt =====
-- The ranks of a board that has its entries.
use notmanytuples.Prelude.{
  ℕ, zero, suc, ◌+◌, String, ◌≡◌, refl, ◌∙◌, ap, false, some, List, [], ◌∷◌, arith, ◌==◌, string_eq,
  eq_iff,
}
use mathlib.Core.Path.{subst}
use notmanytuples.Prelude.Int.{ℤ, pos}
use notmanytuples.Prelude.Lists.{get_elem?, count_if, In, All, All-map, IsPairwise, In-get_elem?}
use notmanytuples.Prelude.Dict.{Dict, lookup, insert, lookup-insert, values}
use notmanytuples.Prelude.Float.{Float, FloatOrder}
use notmanytuples.Prelude.Sort.{
  sort_slice, sort_slice-In, count_if-sort_slice, IsComparable, sort_slice-IsRanked,
  sort_slice-IsPairwise, IsRanked-index,
}
use notmanytuples.Scorer.Leaderboard.{
  LeaderboardEntry, TaskLeaderboard, rank_of, index_ranks, entry_less, rank_entries,
}
use notmanytuples.Scorer.Leaderboard.Order.{entry_less-IsStrict}

module _ {F : Type 0} where
  abbrev pub OtherLogin : LeaderboardEntry F → LeaderboardEntry F → Type 0
  OtherLogin a b = (a.gitlab_login == b.gitlab_login) ≡ false

  pub OtherLogin-symm : (a b : LeaderboardEntry F) → OtherLogin a b → OtherLogin b a
  OtherLogin-symm a b h =
      ground (arith, eq_iff a.gitlab_login b.gitlab_login, eq_iff b.gitlab_login a.gitlab_login)

  lookup-index_ranks_ne :
      (l : String) (i : ℕ) (ranks : Dict String ℤ) (es : List (LeaderboardEntry F))
      → All (λ e. (e.gitlab_login == l) ≡ false) es
      → lookup l (index_ranks i ranks es) ≡ lookup l ranks
  unfolding index_ranks
  lookup-index_ranks_ne l i ranks [] h = refl
  lookup-index_ranks_ne l i ranks (e ∷ es) h =
      lookup-index_ranks_ne l (suc i) (insert e.gitlab_login (pos (suc i)) ranks) es h.1
      ∙ ground (arith, lookup-insert e.gitlab_login l (pos (suc i)) ranks)

  lookup-index_ranks :
      (i j : ℕ) (ranks : Dict String ℤ) (es : List (LeaderboardEntry F)) (e : LeaderboardEntry F)
      → IsPairwise OtherLogin es
      → get_elem? es j ≡ some e
      → lookup e.gitlab_login (index_ranks i ranks es) ≡ some (pos (suc (i + j)))
  unfolding index_ranks
  lookup-index_ranks i j ranks [] e d h = absurd (ground arith)
  lookup-index_ranks i zero ranks (x ∷ es) e d h =
      let same : x ≡ e = ground arith in
      let later : All (λ y. OtherLogin y x) es = All-map es (OtherLogin-symm x) d.0 in
      let here : lookup x.gitlab_login (index_ranks i ranks (x ∷ es)) ≡ some (pos (suc (i + 0))) =
        lookup-index_ranks_ne x.gitlab_login (suc i) (insert x.gitlab_login (pos (suc i)) ranks) es
          later
        ∙ ground (
          arith,
          lookup-insert x.gitlab_login x.gitlab_login (pos (suc i)) ranks,
          eq_iff x.gitlab_login x.gitlab_login,
        ) in
      subst (λ z. lookup z.gitlab_login (index_ranks i ranks (x ∷ es)) ≡ some (pos (suc (i + 0))))
        same here
  lookup-index_ranks i (suc j) ranks (x ∷ es) e d h =
      lookup-index_ranks (suc i) j (insert x.gitlab_login (pos (suc i)) ranks) es e d.1 h
      ∙ ap (λ (n : ℕ). some (pos (suc n))) (omega arith)

  module _ (fl : Float F) (order : FloatOrder fl) where
    -- On a board that was empty, the rank of an entry is one more than the number of entries that
    -- beat it.
    pub rank_of-rank_entries :
        (board : TaskLeaderboard F) (by_login : Dict String (LeaderboardEntry F))
        (e : LeaderboardEntry F)
        → board.entries ≡ []
        → board.ranks ≡ []
        → IsPairwise OtherLogin (values by_login)
        → IsComparable (entry_less fl) (values by_login)
        → In e (values by_login)
        → rank_of (rank_entries fl board by_login) e.gitlab_login
          ≡ some (pos (suc (count_if (λ y. entry_less fl y e) (values by_login))))
    unfolding rank_of rank_entries
    rank_of-rank_entries board by_login e fresh unranked others comparable m =
        let less = entry_less fl in
        let strict = entry_less-IsStrict fl order in
        let es = sort_slice less (values by_login) in
        let (i, at) = In-get_elem? e es (sort_slice-In less e (values by_login) m) in
        let index =
          IsRanked-index less strict es i e
            (sort_slice-IsRanked less strict (values by_login) comparable) at in
        let counted = count_if-sort_slice less (λ y. less y e) (values by_login) in
        let found =
          lookup-index_ranks 0 i board.ranks es e
            (sort_slice-IsPairwise less OtherLogin OtherLogin-symm (values by_login) others) at in
        let place : 0 + i ≡ count_if (λ y. less y e) (values by_login) =
          omega (arith, index, counted) in
        rw (fresh, unranked)
          (subst
              (λ ranks. lookup e.gitlab_login (index_ranks 0 ranks es) ≡ some (pos (suc (0 + i))))
              unranked found
            ∙ ap (λ (n : ℕ). some (pos (suc n))) place)
