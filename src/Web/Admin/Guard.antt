-- ===== src/Web/Admin/Guard.antt =====
-- Who may change something through the admin's pages, and the cached pages.
use Prim.Native.String.{String}
use mathlib.Core.List.{List}
use notmanytuples.Prelude.{
  ◌≡◌, ◌≢◌, ◌⊎◌, refl, sym, ap, ◌∙◌, inl, inr, Bool, true, false, ◌&&◌, none, some, ◌==◌, string_eq,
  Bool-cases, Option-cases, arith, eq_iff,
}
use mathlib.Core.Path.{subst}
use notmanytuples.Prelude.Int.{ℤ, pos, int_lt}
use notmanytuples.Models.{User}
use notmanytuples.Result.{Result, ok, err, Result-cases}
use notmanytuples.Web.Api.{Refusal}
use notmanytuples.Web.Moderation.{Site}
use notmanytuples.Web.Session.{
  Session, Cookies, Accounts, Visit, Endpoints, try_get_token, try_find_user_by_token,
  check_account, validate_session, is_admin, validate_admin,
}
use notmanytuples.Web.Admin.{
  AdminRequest, AdminTables, AdminAction, ban, unban, set_score, clear_score, AdminAnswer, stopped,
  handled, validate_admin_csrf, valid_ban_reason, submission_owner, admin_pipeline_id, finish,
  ban_pipeline, handle_ban, unbanned, handle_set_score, handle_clear_score, act, handle_action,
  visit_of, as_handled, admit, admin_route,
}

-- The request was carried out.
abbrev pub is_done : AdminAnswer → Bool
is_done (stopped a) = false
is_done (handled (err refusal)) = false
is_done (handled (ok to)) = true

abbrev is_ok : Result Refusal String → Bool
is_ok (ok to) = true
is_ok (err refusal) = false

is_ok-is_done : (r : Result Refusal String) → is_ok r ≡ is_done (handled r)
is_ok-is_done (ok to) = refl
is_ok-is_done (err refusal) = refl

validate_admin_csrf-eq :
    (cookies : Cookies) (got : String)
    → validate_admin_csrf cookies got ≡ true
    → (got ≢ "") × (cookies.admin_csrf ≡ some got)
unfolding validate_admin_csrf
validate_admin_csrf-eq cookies got h = elim (Option-cases cookies.admin_csrf) [
  | inl missing ↦ absurd (ground (arith, missing))
  | inr (want, there) ↦ (
    λ e. absurd (ground (arith, there, eq_iff got "")),
    there ∙ ap some ((eq_iff want got).0 (ground (arith, there))),
  )
]

module _ {S : Type 0} (tables : AdminTables S) where
  -- Whether the pages are dropped is whether the request was carried out, where they were cached.
  IsCached : Site S × Result Refusal String → Type 0
  IsCached r = r.0.cleared ≡ is_ok r.1

  finish-IsCached :
      (site : Site S) (message to : String) (reply : S × Result String (Unit {0}))
      → site.cleared ≡ false
      → IsCached (finish tables site message to reply)
  unfolding IsCached finish
  finish-IsCached site message to (t, err e) cached = cached
  finish-IsCached site message to (t, ok _) cached = refl

  handle_ban-IsCached :
      (user : User) (req : AdminRequest) (id : ℤ) (site : Site S)
      → site.cleared ≡ false
      → IsCached (handle_ban tables user req id site)
  unfolding IsCached handle_ban ban_pipeline
  handle_ban-IsCached user req id site cached =
      elim (Bool-cases (valid_ban_reason tables (tables.trim_space req.reason))) [
        | inr bad ↦ rw (handle_ban, bad) cached
        | inl good ↦ elim (Result-cases (tables.find_pipeline_by_id site.db id)) [
          | inr (e, bad) ↦ rw (handle_ban, good, ban_pipeline, bad) cached
          | inl (pipeline, there) ↦ elim (Option-cases user.gitlab_login) [
            | inl missing ↦ rw (handle_ban, good, ban_pipeline, there, missing) cached
            | inr (admin, named) ↦
                rw (handle_ban, good, ban_pipeline, there, named)
                  (finish-IsCached site _ _
                    (tables.ban_submission site.db id (tables.trim_space req.reason) admin) cached)
          ]
        ]
      ]

  unbanned-IsCached :
      (site : Site S) (reply : S × Result String Bool)
      → site.cleared ≡ false
      → IsCached (unbanned tables site reply)
  unfolding IsCached unbanned
  unbanned-IsCached site (t, err e) cached = cached
  unbanned-IsCached site (t, ok false) cached = cached
  unbanned-IsCached site (t, ok true) cached = refl

  handle_set_score-IsCached :
      (req : AdminRequest) (id : ℤ) (site : Site S)
      → site.cleared ≡ false
      → IsCached (handle_set_score tables req id site)
  unfolding IsCached handle_set_score
  handle_set_score-IsCached req id site cached =
      elim (Result-cases (tables.atoi (tables.trim_space req.score))) [
        | inr (e, bad) ↦ rw (handle_set_score, bad) cached
        | inl (score, parsed) ↦ elim (Bool-cases (int_lt score (pos 0))) [
          | inl bad ↦ rw (handle_set_score, parsed, bad) cached
          | inr good ↦ elim (Result-cases (submission_owner tables site.db id)) [
            | inr (e, bad) ↦ rw (handle_set_score, parsed, good, bad) cached
            | inl (owner, there) ↦
                rw (handle_set_score, parsed, good, there) (finish-IsCached site _ _ _ cached)
          ]
        ]
      ]

  handle_clear_score-IsCached :
      (id : ℤ) (site : Site S) → site.cleared ≡ false → IsCached (handle_clear_score tables id site)
  unfolding IsCached handle_clear_score
  handle_clear_score-IsCached id site cached =
      elim (Result-cases (submission_owner tables site.db id)) [
        | inr (e, bad) ↦ rw (handle_clear_score, bad) cached
        | inl (owner, there) ↦ rw (handle_clear_score, there) (finish-IsCached site _ _ _ cached)
      ]

  act-IsCached :
      (action : AdminAction) (user : User) (req : AdminRequest) (id : ℤ) (site : Site S)
      → site.cleared ≡ false
      → IsCached (act tables action user req id site)
  unfolding act
  act-IsCached ban user req id site cached = handle_ban-IsCached user req id site cached
  act-IsCached unban user req id site cached =
      unbanned-IsCached site (tables.unban_submission site.db id) cached
  act-IsCached set_score user req id site cached = handle_set_score-IsCached req id site cached
  act-IsCached clear_score user req id site cached = handle_clear_score-IsCached id site cached

  admin_pipeline_id-ok :
      (cookies : Cookies) (req : AdminRequest) (id : ℤ)
      → admin_pipeline_id tables cookies req ≡ ok id
      → (req.csrf_token ≢ "") × (cookies.admin_csrf ≡ some req.csrf_token)
  unfolding admin_pipeline_id
  admin_pipeline_id-ok cookies req id h = elim (Result-cases (tables.atoi req.pipeline)) [
    | inr (e, bad) ↦ absurd (ground (arith, bad))
    | inl (parsed, good) ↦ elim (Bool-cases (int_lt (pos 0) parsed)) [
      | inr bad ↦ absurd (ground (arith, good, bad))
      | inl positive ↦ elim (Bool-cases (validate_admin_csrf cookies req.csrf_token)) [
        | inr bad ↦ absurd (ground (arith, good, positive, bad))
        | inl matched ↦ validate_admin_csrf-eq cookies req.csrf_token matched
      ]
    ]
  ]

  handle_action-IsCached :
      (action : AdminAction) (cookies : Cookies) (user : User) (req : AdminRequest) (site : Site S)
      → site.cleared ≡ false
      → IsCached (handle_action tables action cookies user req site)
  unfolding handle_action IsCached
  handle_action-IsCached action cookies user req site cached =
      elim (Result-cases (admin_pipeline_id tables cookies req)) [
        | inr (e, bad) ↦ rw (handle_action, bad) cached
        | inl (id, good) ↦ rw (handle_action, good) (act-IsCached action user req id site cached)
      ]

  handle_action-state :
      (action : AdminAction) (cookies : Cookies) (user : User) (req : AdminRequest) (site : Site S)
      → ((handle_action tables action cookies user req site).0 ≡ site)
        ⊎ ((req.csrf_token ≢ "") × (cookies.admin_csrf ≡ some req.csrf_token))
  unfolding handle_action
  handle_action-state action cookies user req site =
      elim (Result-cases (admin_pipeline_id tables cookies req)) [
        | inr (e, bad) ↦ inl (rw (handle_action, bad) refl)
        | inl (id, good) ↦ inr (admin_pipeline_id-ok cookies req id good)
      ]

-- What a request through `validateSession` has shown: a token of a session, and a user that is
-- linked to GitLab, and to Telegram where that is configured and asked for.
pub record IsLinked {S : Type 0} (accounts : Accounts S) (verify_telegram has_telegram : Bool)
    (v : Visit S) (user : User) (session : Session) : Type 0 where
  pub token : String
  pub held : v.cookies.token ≡ some token
  pub known : accounts.find_user_by_session v.db token ≡ ok (user, session)
  pub has_id : user.gitlab_id ≢ none
  pub has_login : user.gitlab_login ≢ none
  pub in_telegram : verify_telegram ≡ true → has_telegram ≡ true → user.telegram_id ≢ none

module _ {S : Type 0} (accounts : Accounts S) (endpoints : Endpoints) where
  try_get_token-held :
      (cookies : Cookies) (token : String)
      → try_get_token cookies ≡ some token
      → cookies.token ≡ some token
  unfolding try_get_token
  try_get_token-held cookies token h = elim (Option-cases cookies.token) [
    | inl missing ↦ absurd (ground (arith, missing))
    | inr (held, there) ↦ elim (Bool-cases (held == "")) [
      | inl empty ↦ absurd (ground (arith, there, empty))
      | inr full ↦ there ∙ sym (rw (try_get_token, there, full) refl) ∙ h
    ]
  ]

  check_account-parts :
      (verify_telegram has_telegram : Bool) (found : User × Session) (user : User)
      (session : Session)
      → check_account accounts endpoints verify_telegram has_telegram found ≡ ok (user, session)
      → (found ≡ (user, session))
        × (found.0.gitlab_id ≢ none)
        × (found.0.gitlab_login ≢ none)
        × (verify_telegram ≡ true → has_telegram ≡ true → found.0.telegram_id ≢ none)
  unfolding check_account
  check_account-parts verify_telegram has_telegram found user session h =
      elim (Bool-cases (
        verify_telegram
        && has_telegram
        && elim found.0.telegram_id [ none ↦ true | some _ ↦ false ])) [
          | inl missing ↦ absurd (ground (arith, missing))
          | inr linked ↦ elim (Option-cases found.0.gitlab_id) [
            | inl missing ↦ absurd (ground (arith, linked, missing))
            | inr (id, has_id) ↦ elim (Option-cases found.0.gitlab_login) [
              | inl missing ↦ absurd (ground (arith, linked, has_id, missing))
              | inr (login, has_login) ↦
                  let step : check_account accounts endpoints verify_telegram has_telegram found
                      ≡ ok found =
                    simp (check_account, linked, has_id, has_login) refl in
                  (
                    ap (λ x. elim x [ ok y ↦ y | err _ ↦ found ]) (sym step ∙ h),
                    λ e. absurd (ground (arith, has_id, e)),
                    λ e. absurd (ground (arith, has_login, e)),
                    λ a b e. absurd (ground (arith, linked, a, b, e)),
                  )
            ]
          ]
        ]

  validate_session-IsLinked :
      (verify_telegram has_telegram : Bool) (v : Visit S) (user : User) (session : Session)
      → validate_session accounts endpoints verify_telegram has_telegram v ≡ ok (user, session)
      → IsLinked accounts verify_telegram has_telegram v user session
  unfolding validate_session try_find_user_by_token check_account
  validate_session-IsLinked verify_telegram has_telegram v user session h =
      elim (Option-cases (try_get_token v.cookies)) [
        | inl missing ↦ absurd (ground (arith, missing))
        | inr (token, held) ↦ elim (Result-cases (accounts.find_user_by_session v.db token)) [
          | inr (e, bad) ↦ absurd (ground (arith, held, bad))
          | inl (found, known) ↦
              let (same, has_id, has_login, in_telegram) =
                check_account-parts verify_telegram has_telegram found user session
                  (sym (rw (validate_session, try_find_user_by_token, held, known) refl) ∙ h) in
              record {
                token = token;
                held = try_get_token-held v.cookies token held;
                known = known ∙ ap ok same;
                has_id = subst (λ (x : User × Session). x.0.gitlab_id ≢ none) same has_id;
                has_login = subst (λ (x : User × Session). x.0.gitlab_login ≢ none) same has_login;
                in_telegram =
                    subst
                      (λ (x : User × Session).
                        verify_telegram ≡ true → has_telegram ≡ true → x.0.telegram_id ≢ none)
                      same in_telegram;
              }
        ]
      ]

module _ {S : Type 0} (accounts : Accounts S) (endpoints : Endpoints) (tables : AdminTables S)
    (admins : List String) (has_telegram : Bool) where
  -- A request through the admin's routes changes something only if its session is that of a linked
  -- user whose login is configured as an admin's, and if its form has the token against forgery that
  -- the session holds, which is not empty. Where the pages are cached, they are dropped exactly if
  -- the request is carried out.
  pub admin_route_guard :
      (action : AdminAction) (browser : Cookies) (req : AdminRequest) (site : Site S)
      → (((admin_route accounts endpoints tables admins has_telegram action browser req site).0
            ≡ site)
          ⊎ ((user : User) × (session : Session) × IsLinked accounts true has_telegram
                (visit_of accounts endpoints tables admins has_telegram browser site)
                user
                session
              × (is_admin admins (some user) ≡ true)
              × (req.csrf_token ≢ "")
              × (browser.admin_csrf ≡ some req.csrf_token)))
        × (site.cleared ≡ false
            → (admin_route accounts endpoints tables admins has_telegram action browser req
                site).0.cleared
              ≡ is_done
                  (admin_route accounts endpoints tables admins has_telegram action browser req
                    site).1)
  unfolding admin_route admit as_handled IsCached
  admin_route_guard action browser req site =
      elim (Result-cases (
        validate_session accounts endpoints true has_telegram
          (visit_of accounts endpoints tables admins has_telegram browser site))) [
            | inr (a, stop) ↦ rw (admin_route, stop) (inl refl, λ cached. cached)
            | inl (valid, good) ↦
                let linked =
                  validate_session-IsLinked accounts endpoints true has_telegram _ valid.0 valid.1
                    good in
                elim (Bool-cases (is_admin admins (some valid.0))) [
                  | inr other ↦
                      rw (admin_route, good, admit, validate_admin, other)
                        (inl refl, λ cached. cached)
                  | inl admin ↦
                      rw (admin_route, good, admit, validate_admin, admin)
                        (
                          elim (handle_action-state tables action browser valid.0 req site) [
                            | inl same ↦ inl same
                            | inr (given, matched) ↦
                                inr (valid.0, valid.1, linked, admin, given, matched)
                          ],
                          λ cached.
                              handle_action-IsCached tables action browser valid.0 req site cached
                              ∙ is_ok-is_done
                                  (handle_action tables action browser valid.0 req site).1,
                        )
                ]
          ]
