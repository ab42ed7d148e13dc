-- ===== src/Tests/Config.antt =====
-- Signup secrets, a round of the fetcher, and titles.
use notmanytuples.Prelude.{ℕ, String, ◌≡◌, refl, ◌⊎◌, true, false, none, some, [], ◌∷◌}
use notmanytuples.Prelude.Lists.{In}
use notmanytuples.Config.{GroupConfig, SubgroupConfig, find_by_secret}
use notmanytuples.Config.Secrets.{Opens, find_by_secret_sound}
use notmanytuples.Deadlines.{Deadlines}
use notmanytuples.Deadlines.Fetcher.{Fetcher, reload, group_deadlines}
use notmanytuples.Deadlines.Fetcher.Snapshot.{reload_whole}
use notmanytuples.Result.{ok}
use notmanytuples.Scorer.Titles.{prettify_title}
use notmanytuples.Tests.Data.{course}

abbrev evening : SubgroupConfig
evening = record { name = "evening"; secret = "moon" }

abbrev pub hse : GroupConfig
hse = record {
  name = "hse";
  secret = "";
  deadlines_url = "https://example.com/hse.yml";
  deadlines_format = "v2";
  show_marks = true;
  default = false;
  subgroups = evening ∷ [];
}

find_by_secret_sound_example : In hse (hse ∷ []) × Opens "moon" (hse, some evening)
unfolding find_by_secret
find_by_secret_sound_example = find_by_secret_sound (hse ∷ []) "moon" (hse, some evening) refl

abbrev empty_fetcher : Fetcher ℕ
empty_fetcher = record { current = none }

reload_whole_example :
    ((e : String) × (reload (λ _ _. ok course) (hse ∷ []) empty_fetcher ≡ (empty_fetcher, some e)))
    ⊎ ((f' : Fetcher ℕ) × (reload (λ _ _. ok course) (hse ∷ []) empty_fetcher ≡ (f', none))
        × ((g : GroupConfig)
            → In g (hse ∷ [])
            → (d : Deadlines ℕ) × (group_deadlines f' g.name ≡ some d)))
reload_whole_example = reload_whole (λ _ _. ok course) (hse ∷ []) empty_fetcher

title_of_numbered : prettify_title (λ t. t) "01-hello-world_2" ≡ "hello world 2"
unfolding prettify_title
title_of_numbered = refl

title_of_plain : prettify_title (λ t. t) "2024" ≡ "2024"
unfolding prettify_title
title_of_plain = refl
