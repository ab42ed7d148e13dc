-- ===== src/Web/Admin.antt =====
-- internal/web/admin.go: the admin's handlers; and the ref of a merge request pipeline, of
-- internal/database/database.go.
pub mod Filters
pub mod Guard
use Prim.Native.Char.{Char, code}
use Prim.Native.String.{String, [], ◌∷◌}
use mathlib.Core.List.{List, [], ◌∷◌}
use notmanytuples.Prelude.{
  ℕ, suc, Bool, true, false, not, ◌&&◌, ◌||◌, Option, none, some, if◌then◌else◌, ◌==◌, string_eq,
  leb,
}
use notmanytuples.Prelude.Int.{ℤ, pos, int_lt}
use notmanytuples.Prelude.Paths.{split_slash}
use notmanytuples.Models.{User, Pipeline, MergeRequest, pipeline_status_success}
use notmanytuples.Result.{Result, ok, err, ◌>>=◌, and_then}
use notmanytuples.Web.Api.{Refusal, refuse, found}
use notmanytuples.Web.Moderation.{Site}
use notmanytuples.Web.Session.{
  Session, Cookies, DbError, save_cookies, Accounts, Visit, Answer, Endpoints, validate_session,
  validate_admin,
}

abbrev pub max_ban_reason_runes : ℕ
max_ban_reason_runes = 500

-- The form of a request, and the pipeline of its address.
pub record AdminRequest : Type 0 where
  pub pipeline : String
  pub csrf_token : String
  pub reason : String
  pub score : String

-- The tables, and the packages strconv and strings.
pub record AdminTables (S : Type 0) : Type 0 where
  pub find_pipeline_by_id : S → ℤ → Result String Pipeline
  pub find_merge_request : S → (project : String) → (iid : ℤ) → Option MergeRequest
  pub find_user_by_project_name : S → String → Result String User
  pub ban_submission : S → ℤ → (reason admin : String) → S × Result String (Unit {0})
  pub unban_submission : S → ℤ → S × Result String Bool
  pub add_override :
      S → (login task : String) → (score : ℤ) → (status : String) → S × Result String (Unit {0})
  pub remove_override : S → (login task : String) → S × Result String (Unit {0})
  pub atoi : String → Result String ℤ
  pub trim_space : String → String

-- The four requests that change something.
pub data AdminAction : Type 0 where
  ban : AdminAction
  unban : AdminAction
  set_score : AdminAction
  clear_score : AdminAction

-- `utf8.RuneCountInString`.
rune_count : String → ℕ
rune_count [] = 0
rune_count (c ∷ s) = suc (rune_count s)

abbrev is_digit : Char → Bool
is_digit c = leb b'0' (code c) && leb (code c) b'9'

-- `\d+`.
is_number : String → Bool
is_number [] = false
is_number (c ∷ []) = is_digit c
is_number (c ∷ d ∷ s) = is_digit c && is_number (d ∷ s)

-- Whether a text has the form `refs/merge-requests/<digits>/(head|merge)`: the digits.
merge_request_ref : List String → Option String
unfolding is_number
merge_request_ref (refs ∷ requests ∷ iid ∷ side ∷ []) =
    if refs == "refs"
      && requests == "merge-requests"
      && is_number iid
      && (side == "head" || side == "merge")
    then some iid
    else none
merge_request_ref parts = none

unfoldable pub validate_admin_csrf : Cookies → String → Bool
validate_admin_csrf cookies got = elim cookies.admin_csrf [
  | none ↦ false
  | some want ↦ not (want == "") && not (got == "") && want == got
]

module _ {S : Type 0} (tables : AdminTables S) where
  unfoldable pub valid_ban_reason : String → Bool
  unfolding rune_count
  valid_ban_reason reason =
      let runes = rune_count (tables.trim_space reason) in
      leb 1 runes && leb runes max_ban_reason_runes

  unfoldable pub parse_merge_request_ref : String → Option ℤ
  unfolding merge_request_ref split_slash
  parse_merge_request_ref ref = elim (merge_request_ref (split_slash ref)) [
    | none ↦ none
    | some digits ↦ elim (tables.atoi digits) [ err e ↦ none | ok iid ↦ some iid ]
  ]

  -- `none`: not the ref of a merge request. No task yet is the empty text.
  unfoldable pub merge_request_pipeline_task : S → (project ref : String) → Option String
  unfolding parse_merge_request_ref
  merge_request_pipeline_task s project ref = elim (parse_merge_request_ref ref) [
    | none ↦ none
    | some iid ↦ elim (tables.find_merge_request s project iid) [
      | none ↦ some ""
      | some mr ↦ some mr.task
    ]
  ]

  owner_task : S → Pipeline → Result String String
  unfolding merge_request_pipeline_task
  owner_task s pipeline = elim (merge_request_pipeline_task s pipeline.project pipeline.task) [
    | none ↦ ok pipeline.task
    | some task ↦ if task == "" then err "record not found" else ok task
  ]

  -- The login and the task.
  unfoldable pub submission_owner : S → ℤ → Result String (String × String)
  unfolding owner_task
  submission_owner s id = tables.find_pipeline_by_id s id >>= λ pipeline.
      owner_task s pipeline >>= λ task.
      tables.find_user_by_project_name s pipeline.project >>= λ user. elim user.gitlab_login [
        | none ↦ err "record not found"
        | some login ↦ ok (login, task)
      ]

  unfoldable pub admin_pipeline_id : Cookies → AdminRequest → Result Refusal ℤ
  unfolding validate_admin_csrf
  admin_pipeline_id cookies req = elim (tables.atoi req.pipeline) [
    | err e ↦ refuse 400 "invalid pipeline id"
    | ok id ↦
        if not (int_lt (pos 0) id)
        then refuse 400 "invalid pipeline id"
        else if not (validate_admin_csrf cookies req.csrf_token)
        then refuse 403 "invalid CSRF token"
        else ok id
  ]

  -- The last call of a handler: the cached pages are dropped where it succeeds.
  finish : Site S → String → String → S × Result String (Unit {0}) → Site S × Result Refusal String
  finish site message to (t, err e) = (record site { db = t }, refuse 500 message)
  finish site message to (t, ok _) = (record { db = t; cleared = true }, ok to)

  ban_pipeline : User → AdminRequest → ℤ → Site S → Site S × Result Refusal String
  unfolding finish
  ban_pipeline user req id site = elim (tables.find_pipeline_by_id site.db id) [
    | err e ↦ (site, refuse 404 "pipeline not found")
    | ok pipeline ↦ elim user.gitlab_login [
      | none ↦ (site, refuse 500 "nil pointer")
      | some admin ↦
          finish site "failed to ban submission" "/admin/submissions?state=banned"
            (tables.ban_submission site.db id (tables.trim_space req.reason) admin)
    ]
  ]

  handle_ban : User → AdminRequest → ℤ → Site S → Site S × Result Refusal String
  unfolding valid_ban_reason ban_pipeline
  handle_ban user req id site =
      if not (valid_ban_reason (tables.trim_space req.reason))
      then (site, refuse 400 "reason must contain 1 to 500 characters")
      else ban_pipeline user req id site

  unbanned : Site S → S × Result String Bool → Site S × Result Refusal String
  unbanned site (t, err e) = (record site { db = t }, refuse 500 "failed to unban submission")
  unbanned site (t, ok false) = (record site { db = t }, refuse 404 "pipeline is not banned")
  unbanned site (t, ok true) = (record { db = t; cleared = true }, ok "/admin/submissions")

  handle_set_score : AdminRequest → ℤ → Site S → Site S × Result Refusal String
  unfolding submission_owner finish
  handle_set_score req id site = elim (tables.atoi (tables.trim_space req.score)) [
    | err e ↦ (site, refuse 400 "score must be a non-negative integer")
    | ok score ↦
        if int_lt score (pos 0)
        then (site, refuse 400 "score must be a non-negative integer")
        else elim (submission_owner site.db id) [
          | err e ↦ (site, refuse 404 "pipeline owner not found")
          | ok owner ↦
              finish site "failed to set score" "/admin/submissions"
                (tables.add_override site.db owner.0 owner.1 score pipeline_status_success)
        ]
  ]

  handle_clear_score : ℤ → Site S → Site S × Result Refusal String
  unfolding submission_owner finish
  handle_clear_score id site = elim (submission_owner site.db id) [
    | err e ↦ (site, refuse 404 "pipeline owner not found")
    | ok owner ↦
        finish site "failed to clear score" "/admin/submissions"
          (tables.remove_override site.db owner.0 owner.1)
  ]

  act : AdminAction → User → AdminRequest → ℤ → Site S → Site S × Result Refusal String
  unfolding handle_ban unbanned handle_set_score handle_clear_score
  act ban user req id site = handle_ban user req id site
  act unban user req id site = unbanned site (tables.unban_submission site.db id)
  act set_score user req id site = handle_set_score req id site
  act clear_score user req id site = handle_clear_score id site

  -- The handlers, each of which begins with `adminPipelineID`.
  unfoldable pub handle_action :
      AdminAction → Cookies → User → AdminRequest → Site S → Site S × Result Refusal String
  unfolding admin_pipeline_id act
  handle_action action cookies user req site = elim (admin_pipeline_id cookies req) [
    | err refusal ↦ (site, err refusal)
    | ok id ↦ act action user req id site
  ]

-- The token against forgery of the session, made where it has none; `fresh` is the new `uuid`.
unfoldable pub admin_csrf_token :
    {S : Type 0} → Accounts S → Endpoints → Visit S → String → Visit S × Result DbError String
unfolding save_cookies
admin_csrf_token accounts endpoints v fresh =
    let make =
      and_then (save_cookies accounts endpoints v (record v.cookies { admin_csrf = some fresh }))
        (λ saved _. (saved, ok fresh)) in
    elim v.cookies.admin_csrf [
      | none ↦ make
      | some token ↦ if token == "" then make else (v, ok token)
    ]

-- A request ends at the middleware, or in the handler.
pub data AdminAnswer : Type 0 where
  stopped : Answer → AdminAnswer
  handled : Result Refusal String → AdminAnswer

-- The three functions of a route of server.go, one after the other. `browser` is what the browser
-- sends, and the database of the visit is that of the site.
module _ {S : Type 0} (accounts : Accounts S) (endpoints : Endpoints) (tables : AdminTables S)
    (admins : List String) (has_telegram : Bool) where
  abbrev pub visit_of : Cookies → Site S → Visit S
  visit_of browser site = record { db = site.db; cookies = browser; prepared = [] }

  as_handled : Site S × Result Refusal String → Site S × AdminAnswer
  as_handled (site, r) = (site, handled r)

  admit : AdminAction → Cookies → AdminRequest → Site S → User → Site S × AdminAnswer
  unfolding validate_admin as_handled handle_action
  admit action browser req site user = elim (validate_admin accounts endpoints admins user) [
    | err a ↦ (site, stopped a)
    | ok _ ↦ as_handled (handle_action tables action browser user req site)
  ]

  unfoldable pub admin_route : AdminAction → Cookies → AdminRequest → Site S → Site S × AdminAnswer
  unfolding validate_session admit
  admin_route action browser req site =
      elim (validate_session accounts endpoints true has_telegram (visit_of browser site)) [
        | err a ↦ (site, stopped a)
        | ok valid ↦ admit action browser req site valid.0
      ]
