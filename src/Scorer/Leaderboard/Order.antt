-- ===== src/Scorer/Leaderboard/Order.antt =====
-- The order of leaderboard entries.
use notmanytuples.Prelude.{◌≡◌, ◌≢◌, ◌⊎◌, true, false, arith}
use notmanytuples.Prelude.Int.{int_Eq, int_eq_iff}
use notmanytuples.Prelude.Float.{Float, FloatOrder}
use notmanytuples.Prelude.Best.{IsStrict}
use notmanytuples.Scorer.Leaderboard.{LeaderboardEntry, entry_less}

module _ {F : Type 0} (fl : Float F) (order : FloatOrder fl) where
  open order use {eq_symm, eq_trans, lt_irrefl, lt_trans, lt_ne, eq_lt, lt_eq, lt_total}

  -- `entryLess` is a strict order, whatever the metrics are.
  pub entry_less-IsStrict : IsStrict (entry_less fl)
  unfolding entry_less
  entry_less-IsStrict = record {
    irrefl = λ a. ground (arith, lt_irrefl a.metric);
    trans = λ a b c h k. ground (
      arith,
      eq_trans a.metric b.metric c.metric,
      lt_trans a.metric b.metric c.metric,
      eq_lt a.metric b.metric c.metric,
      lt_eq a.metric b.metric c.metric,
      lt_ne a.metric c.metric,
    );
  }

  -- Two entries of different pipelines whose metrics are numbers are never tied.
  pub entry_less_total :
      (a b : LeaderboardEntry F)
      → fl.is_nan a.metric ≡ false
      → fl.is_nan b.metric ≡ false
      → a.pipeline_id ≢ b.pipeline_id
      → (entry_less fl a b ≡ true) ⊎ (entry_less fl b a ≡ true)
  unfolding entry_less
  entry_less_total a b h k ne = ground (
    arith,
    lt_total a.metric b.metric,
    eq_symm a.metric b.metric,
    eq_symm b.metric a.metric,
    int_eq_iff a.pipeline_id b.pipeline_id,
  )
