-- ===== src/Web/Login/Oauth.antt =====
-- What the login through GitLab may change.
use notmanytuples.Prelude.{
  String, ◌≡◌, refl, sym, ap, ◌∙◌, ◌⊎◌, inl, inr, true, false, Option, none, some, Bool-cases,
  Option-cases, arith, eq_iff, string_eq,
}
use mathlib.Core.Path.{subst}
use notmanytuples.Models.{User}
use notmanytuples.Result.{Result, ok, err, Result-cases}
use notmanytuples.Web.Session.{
  Session, DbError, duplicate_key, db_failed, Accounts, Visit, Endpoints, save_cookies,
  clear_session, redirect_to_signup, start_session, fill_session_for_user, try_find_user_by_token,
}
use notmanytuples.Web.Login.{
  GitlabAccount, Outside, has_account, enter_home, account_set, link_account, find_account_user,
  resolve_account, same_state, oauth,
}

module _ {S : Type 0} (accounts : Accounts S) (endpoints : Endpoints) (outside : Outside) where
  -- The user of a login: the one of the browser's token, or, without a token, the one of the account.
  abbrev pub IsUserOf : Visit S → GitlabAccount → User → Type 0
  IsUserOf v account user =
      ((session : Session) × (try_find_user_by_token accounts endpoints v
          ≡ ok (some (user, session))))
      ⊎ ((try_find_user_by_token accounts endpoints v ≡ ok none)
          × (accounts.find_user_by_gitlab_id v.db account.id ≡ ok user))

  -- GitLab has given the account for the code of this login.
  abbrev pub IsGiven : String → GitlabAccount → Type 0
  IsGiven code account =
      (access_token : String) × (outside.exchange code ≡ ok access_token)
      × (outside.get_gitlab_user access_token ≡ ok account)

  -- The database after a login: as it was, with a session of a user that has an account, or with
  -- the account that GitLab gave set on a user that had none.
  pub data IsOutcome (v : Visit S) (state code : String) : S → Type 0 where
    unchanged : IsOutcome v state code v.db
    session_created :
        (user : User) (account : GitlabAccount)
        → v.cookies.oauth_state ≡ some state
        → IsGiven code account
        → IsUserOf v account user
        → has_account user ≡ true
        → IsOutcome v state code (accounts.create_session v.db user.id).0
    account_linked :
        (user : User) (account : GitlabAccount)
        → v.cookies.oauth_state ≡ some state
        → IsGiven code account
        → IsUserOf v account user
        → has_account user ≡ false
        → IsOutcome v state code
            (accounts.set_user_gitlab_account v.db user.id account.id account.login).0

  save_cookies-db :
      (v : Visit S) (cookies : _) → (save_cookies accounts endpoints v cookies).0.db ≡ v.db
  unfolding save_cookies
  save_cookies-db v cookies = elim (Result-cases (accounts.save cookies)) [
    | inl (_, h) ↦ rw (save_cookies, h) refl
    | inr (_, h) ↦ rw (save_cookies, h) refl
  ]

  clear_session-db : (v : Visit S) → (clear_session accounts endpoints v).db ≡ v.db
  unfolding clear_session
  clear_session-db v = save_cookies-db v _

  start_session-db :
      (v : Visit S) (reply : S × Result DbError Session)
      → (start_session accounts endpoints v reply).0.db ≡ reply.0
  unfolding start_session
  start_session-db v (s, err e) = refl
  start_session-db v (s, ok session) = save_cookies-db (record v { db = s }) _

  enter_home-db :
      (filled : Visit S × Result DbError (Unit {0}))
      → (enter_home accounts endpoints outside filled).0.db ≡ filled.0.db
  unfolding enter_home redirect_to_signup
  enter_home-db (w, ok _) = refl
  enter_home-db (w, err e) = clear_session-db w

  account_set-db :
      (v : Visit S) (user : User) (reply : S × Result DbError (Unit {0}))
      → (account_set accounts endpoints outside v user reply).0.db ≡ reply.0
  unfolding account_set redirect_to_signup
  account_set-db v user (s, err duplicate_key) = clear_session-db (record v { db = s })
  account_set-db v user (s, err (db_failed e)) = clear_session-db (record v { db = s })
  account_set-db v user (s, ok _) = save_cookies-db (record v { db = s }) v.cookies

  link_account-IsOutcome :
      (v : Visit S) (state code : String) (user : User) (account : GitlabAccount)
      → v.cookies.oauth_state ≡ some state
      → IsGiven code account
      → IsUserOf v account user
      → IsOutcome v state code (link_account accounts endpoints outside v user account).0.db
  unfolding link_account fill_session_for_user
  link_account-IsOutcome v state code user account same given his =
      elim (Bool-cases (has_account user)) [
        | inl linked ↦
            let filled = fill_session_for_user accounts endpoints v user in
            rw (link_account, linked)
              (subst (IsOutcome v state code)
                (sym (
                  enter_home-db filled ∙ start_session-db v (accounts.create_session v.db user.id)))
                (session_created user account same given his linked))
        | inr fresh ↦
            rw (link_account, fresh)
              (subst (IsOutcome v state code)
                (sym (
                  account_set-db v _
                    (accounts.set_user_gitlab_account v.db user.id account.id account.login)))
                (account_linked user account same given his fresh))
      ]

  cleared :
      (v : Visit S) (state code : String)
      → IsOutcome v state code (clear_session accounts endpoints v).db
  cleared v state code = subst (IsOutcome v state code) (sym (clear_session-db v)) unchanged

  find_account_user-IsOutcome :
      (v : Visit S) (state code : String) (account : GitlabAccount)
      (found : Option (User × Session))
      → v.cookies.oauth_state ≡ some state
      → IsGiven code account
      → try_find_user_by_token accounts endpoints v ≡ ok found
      → IsOutcome v state code (find_account_user accounts endpoints outside v account found).0.db
  unfolding find_account_user redirect_to_signup
  find_account_user-IsOutcome v state code account (some (user, session)) same given h =
      link_account-IsOutcome v state code user account same given (inl (session, h))
  find_account_user-IsOutcome v state code account none same given h =
      elim (Result-cases (accounts.find_user_by_gitlab_id v.db account.id)) [
        | inr (e, bad) ↦ rw (find_account_user, bad) (cleared v state code)
        | inl (user, good) ↦
            rw (find_account_user, good)
              (link_account-IsOutcome v state code user account same given (inr (h, good)))
      ]

  resolve_account-IsOutcome :
      (v : Visit S) (state code : String) (found : Option (User × Session))
      → v.cookies.oauth_state ≡ some state
      → try_find_user_by_token accounts endpoints v ≡ ok found
      → IsOutcome v state code (resolve_account accounts endpoints outside v code found).0.db
  unfolding resolve_account redirect_to_signup
  resolve_account-IsOutcome v state code found same h =
      elim (Result-cases (outside.exchange code)) [
        | inr (e, bad) ↦ rw (resolve_account, bad) (cleared v state code)
        | inl (access_token, got) ↦ elim (Result-cases (outside.get_gitlab_user access_token)) [
          | inr (e, bad) ↦ rw (resolve_account, got, bad) (cleared v state code)
          | inl (account, given) ↦
              rw (resolve_account, got, given)
                (find_account_user-IsOutcome v state code account found same
                  (access_token, got, given) h)
        ]
      ]

  same_state-eq :
      (v : Visit S) (state : String)
      → same_state accounts endpoints outside v state ≡ true
      → v.cookies.oauth_state ≡ some state
  unfolding same_state
  same_state-eq v state h = elim (Option-cases v.cookies.oauth_state) [
    | inl missing ↦ absurd (ground (arith, missing))
    | inr (held, there) ↦ there ∙ ap some ((eq_iff held state).0 (ground (arith, there)))
  ]

  -- A login through GitLab leaves the database as it was, or makes a session for a user that has an
  -- account, or sets the account that GitLab gave for the code on a user that has none: an account
  -- is never replaced. The last two only where the state is the one that the browser was given, and
  -- for the user of the browser's token, or, without a token, for the user with that account.
  pub oauth_outcome :
      (v : Visit S) (state code : String)
      → IsOutcome v state code (oauth accounts endpoints outside v state code).0.db
  unfolding oauth redirect_to_signup
  oauth_outcome v state code = elim (Bool-cases (same_state accounts endpoints outside v state)) [
    | inr other ↦ rw (oauth, other) (cleared v state code)
    | inl same ↦ elim (Result-cases (try_find_user_by_token accounts endpoints v)) [
      | inr (e, bad) ↦ rw (oauth, same, bad) (cleared v state code)
      | inl (found, h) ↦
          rw (oauth, same, h)
            (resolve_account-IsOutcome v state code found (same_state-eq v state same) h)
    ]
  ]
