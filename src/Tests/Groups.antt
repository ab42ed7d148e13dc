-- ===== src/Tests/Groups.antt =====
-- `BuildScoringGroups` on a course of one group.
use notmanytuples.Prelude.{ℕ, ◌≡◌, ◌≢◌, refl, [], ◌∷◌}
use notmanytuples.Prelude.Int.{pos, ◌+int◌}
use notmanytuples.Prelude.Dict.{lookup, insert}
use notmanytuples.Deadlines.{
  Deadlines, nil_dereference, index_scoring, build_scoring_groups, get_scoring_group,
}
use notmanytuples.Deadlines.Groups.{
  IsResolved, build_scoring_groups_no_panic, build_scoring_groups-IsResolved,
  build_scoring_groups_total,
}
use notmanytuples.Result.{ok, err}
use notmanytuples.Tests.Data.{course}

-- The course behind `BuildScoringGroups`: the maximum is the sum of the scores.
abbrev built : Deadlines ℕ
built = record course {
  scoring = record course.scoring {
    groups = record { name = "labs"; weight = 1; max_score = pos 300; policy = "soft" } ∷ [];
  };
  policies = (index_scoring course).policies;
  groups = (index_scoring course).groups;
}

build_course : build_scoring_groups course ≡ ok built
unfolding build_scoring_groups index_scoring lookup insert ◌+int◌
build_course = refl

build_scoring_groups_no_panic_example : build_scoring_groups course ≢ err nil_dereference
build_scoring_groups_no_panic_example = build_scoring_groups_no_panic course

build_scoring_groups-IsResolved_example :
    IsResolved built × (built.assignments ≡ course.assignments)
build_scoring_groups-IsResolved_example = build_scoring_groups-IsResolved course built build_course

build_scoring_groups_total_example : (d : Deadlines ℕ) × (build_scoring_groups course ≡ ok d)
unfolding get_scoring_group index_scoring lookup insert
build_scoring_groups_total_example = build_scoring_groups_total course ((refl, (_, refl)), tt)
