-- ===== src/Tests/Admin.antt =====
-- A request of an admin, and the address of a page.
use notmanytuples.Prelude.{ℕ, suc, ◌≡◌, ◌≢◌, ◌⊎◌, refl, true, false, none, some, [], ◌∷◌}
use notmanytuples.Prelude.Int.{pos}
use notmanytuples.Models.{User}
use notmanytuples.Result.{ok}
use notmanytuples.Web.Moderation.{Site}
use notmanytuples.Web.Session.{Session, Cookies, is_admin}
use notmanytuples.Web.Admin.{
  AdminRequest, AdminTables, ban, parse_merge_request_ref, visit_of, admin_route,
}
use notmanytuples.Web.Admin.Filters.{AdminFilters, Codec, normalize_admin_filters, admin_query}
use notmanytuples.Web.Admin.Guard.{IsLinked, is_done, admin_route_guard}
use notmanytuples.Tests.Data.{pipeline}
use notmanytuples.Tests.Login.{accounts, endpoints, linked, browser}

abbrev tables : AdminTables ℕ
tables = record {
  find_pipeline_by_id = λ n id. ok (pipeline (pos 7) "success" (pos 100));
  find_merge_request = λ n project iid. none;
  find_user_by_project_name = λ n project. ok linked;
  ban_submission = λ n id reason admin. (suc n, ok tt);
  unban_submission = λ n id. (suc n, ok true);
  add_override = λ n login task score status. (suc n, ok tt);
  remove_override = λ n login task. (suc n, ok tt);
  atoi = λ text. ok (pos 7);
  trim_space = λ text. text;
}

abbrev signed_in : Cookies
signed_in = record browser { token = some "t0ken" }

abbrev ban_request : AdminRequest
ban_request = record { pipeline = "7"; csrf_token = "csrf"; reason = "copied"; score = "" }

abbrev site : Site ℕ
site = record { db = 0; cleared = false }

banned :
    (admin_route accounts endpoints tables ("ann" ∷ []) true ban signed_in ban_request site).0
    ≡ record { db = 1; cleared = true }
unfolding admin_route
banned = refl

admin_route_guard_example :
    (((admin_route accounts endpoints tables ("ann" ∷ []) true ban signed_in ban_request site).0
        ≡ site)
      ⊎ ((user : User) × (session : Session) × IsLinked accounts true true
            (visit_of accounts endpoints tables ("ann" ∷ []) true signed_in site)
            user
            session
          × (is_admin ("ann" ∷ []) (some user) ≡ true)
          × (ban_request.csrf_token ≢ "")
          × (signed_in.admin_csrf ≡ some ban_request.csrf_token)))
    × (site.cleared ≡ false
        → (admin_route accounts endpoints tables
            ("ann" ∷ [])
            true
            ban
            signed_in
            ban_request
            site).0.cleared
          ≡ is_done
              (admin_route accounts endpoints tables
                ("ann" ∷ [])
                true
                ban
                signed_in
                ban_request
                site).1)
admin_route_guard_example =
    admin_route_guard accounts endpoints tables ("ann" ∷ []) true ban signed_in ban_request site

merge_request_ref_read : parse_merge_request_ref tables "refs/merge-requests/7/head" ≡ some (pos 7)
unfolding parse_merge_request_ref
merge_request_ref_read = refl

branch_ref_refused : parse_merge_request_ref tables "refs/merge-requests/7x/head" ≡ none
unfolding parse_merge_request_ref
branch_ref_refused = refl

abbrev codec : Codec
codec = record {
  atoi = λ text. ok (pos 3);
  itoa = λ n. "3";
  trim_space = λ text. text;
  encode = λ values. "";
}

abbrev banned_page : AdminFilters
banned_page = record {
  kind = "regular";
  group = "";
  task = "sum";
  login = "";
  state = "banned";
  page = pos 3;
}

page_read_back : normalize_admin_filters codec (admin_query codec banned_page (pos 3)) ≡ banned_page
unfolding normalize_admin_filters admin_query
page_read_back = refl
