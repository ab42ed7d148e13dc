-- ===== src/Tests/Web.antt =====
-- Moderation of a pipeline, and a page of the table of submissions.
use notmanytuples.Prelude.{ℕ, ◌≤◌, ◌<◌, ◌≡◌, true, Option, none, some, List, [], ◌∷◌, ◌++◌}
use notmanytuples.Prelude.Int.{ℤ, pos, ◌≤ℤ◌, pos_part}
use notmanytuples.Result.{ok}
use notmanytuples.Web.Moderation.{BanRequest, Moderators, moderate}
use notmanytuples.Web.Moderation.Cache.{site, is_done, is_bad, moderate_cache}
use notmanytuples.Web.Pages.{
  normalize_admin_pagination, page_count, shown_page, page_offset, shown_page_bounds,
}

-- A database of the banned pipelines.
abbrev moderators : Moderators (List ℤ)
moderators = record {
  find_pipeline = λ _ _. true;
  ban_submission = λ bans id _. (bans ++ id ∷ [], none);
  unban_submission = λ bans _. ([], ok true);
  trim_space = λ t. t;
  show = λ _. "7";
}

abbrev body : Option BanRequest
body = some (record { pipeline_id = pos 7; reason = "copied" })

moderate_cache_example :
    ((moderate moderators (site moderators []) body true).0.cleared
      ≡ is_done (moderate moderators (site moderators []) body true).1)
    × (is_bad (moderate moderators (site moderators []) body true).1 ≡ true
        → (moderate moderators (site moderators []) body true).0 ≡ site moderators [])
moderate_cache_example = moderate_cache moderators [] body true

shown_page_bounds_example :
    (n : ℕ) × ((normalize_admin_pagination (pos 9) (pos 0)).1 ≡ pos n)
    × (1 ≤ n)
    × (n ≤ 100)
    × (pos 1 ≤ℤ shown_page (normalize_admin_pagination (pos 9) (pos 0)).0 (page_count 120 n))
    × (pos_part (shown_page (normalize_admin_pagination (pos 9) (pos 0)).0 (page_count 120 n))
        ≤ page_count 120 n)
    × (1 ≤ 120
        → page_offset
            (shown_page (normalize_admin_pagination (pos 9) (pos 0)).0 (page_count 120 n))
            n
          < 120)
shown_page_bounds_example = shown_page_bounds (pos 9) (pos 0) 120
