-- ===== src/Web/Session.antt =====
-- internal/web/login.go: the session cookie, and the middleware that finds the user of a request.
use notmanytuples.Prelude.{
  ℕ, String, Bool, true, false, not, ◌&&◌, Option, none, some, List, if◌then◌else◌, ◌==◌, string_eq,
}
use notmanytuples.Prelude.Int.{ℤ}
use notmanytuples.Prelude.Lists.{any_of}
use notmanytuples.Models.{User}
use notmanytuples.Result.{Result, ok, err}

pub record Session : Type 0 where
  pub id : ℕ
  pub token : String
  pub user_id : ℕ

-- What the program keeps in the session of a browser.
pub record Cookies : Type 0 where
  pub token : Option String
  pub oauth_state : Option String
  pub admin_csrf : Option String

-- An error of the database: `IsDuplicateKey` tells the first kind.
pub data DbError : Type 0 where
  duplicate_key : DbError
  db_failed : String → DbError

-- The tables of users and sessions, with their state, and the answer to `Save` of a session.
pub record Accounts (S : Type 0) : Type 0 where
  pub add_user : S → User → S × Result DbError User
  pub create_session : S → ℕ → S × Result DbError Session
  pub find_user_by_session : S → String → Result DbError (User × Session)
  pub find_user_by_gitlab_id : S → ℤ → Result DbError User
  pub find_user_by_gitlab_login : S → String → Result DbError User
  pub set_user_gitlab_account : S → ℕ → (id : ℤ) → (login : String) → S × Result DbError (Unit {0})
  pub set_user_telegram_id : S → User → S × Result DbError (Unit {0})
  pub save : Cookies → Result DbError (Unit {0})

-- A request: the database, what the browser holds, and the users handed to the worker of projects.
pub record Visit (S : Type 0) : Type 0 where
  pub db : S
  pub cookies : Cookies
  pub prepared : List User

pub data Answer : Type 0 where
  redirect : (code : ℕ) → (to : String) → Answer
  signup_page : (error : String) → Answer
  forbidden : Answer

pub record Endpoints : Type 0 where
  pub home : String
  pub login : String
  pub signup : String
  pub telegram_login : String

-- `storage.Get(sessionKeyToken)`: no token and an empty one are alike.
unfoldable pub try_get_token : Cookies → Option String
try_get_token cookies = elim cookies.token [
  | none ↦ none
  | some token ↦ if token == "" then none else some token
]

unfoldable pub is_admin : List String → Option User → Bool
is_admin admins none = false
is_admin admins (some user) = elim user.gitlab_login [
  | none ↦ false
  | some login ↦ any_of (λ admin. admin == login) admins
]

module _ {S : Type 0} (accounts : Accounts S) (endpoints : Endpoints) where
  -- The cookies after `Save`: the browser keeps what it had where it fails.
  unfoldable pub save_cookies : Visit S → Cookies → Visit S × Result DbError (Unit {0})
  save_cookies v cookies = elim (accounts.save cookies) [
    | ok _ ↦ (record v { cookies = cookies }, ok tt)
    | err e ↦ (v, err e)
  ]

  unfoldable pub clear_session : Visit S → Visit S
  unfolding save_cookies
  clear_session v = (save_cookies v (record v.cookies { token = some "" })).0

  unfoldable pub redirect_to_signup : Visit S → String → Visit S × Answer
  unfolding clear_session
  redirect_to_signup v message = (clear_session v, signup_page message)

  unfoldable pub logout : Visit S → Visit S × Answer
  unfolding redirect_to_signup
  logout v = redirect_to_signup v ""

  -- A session that could not be created leaves the cookies alone.
  unfoldable pub start_session :
      Visit S → S × Result DbError Session → Visit S × Result DbError (Unit {0})
  unfolding save_cookies
  start_session v (s, err e) = (record v { db = s }, err e)
  start_session v (s, ok session) =
      save_cookies (record v { db = s }) (record v.cookies { token = some session.token })

  unfoldable pub fill_session_for_user : Visit S → User → Visit S × Result DbError (Unit {0})
  unfolding start_session
  fill_session_for_user v user = start_session v (accounts.create_session v.db user.id)

  -- No token is the two nil pointers without an error.
  unfoldable pub try_find_user_by_token : Visit S → Result DbError (Option (User × Session))
  unfolding try_get_token
  try_find_user_by_token v = elim (try_get_token v.cookies) [
    | none ↦ ok none
    | some token ↦ elim (accounts.find_user_by_session v.db token) [
      | err e ↦ err e
      | ok found ↦ ok (some found)
    ]
  ]

  unfoldable pub check_account : Bool → Bool → User × Session → Result Answer (User × Session)
  check_account verify_telegram has_telegram (user, session) =
      if verify_telegram && has_telegram && elim user.telegram_id [ none ↦ true | some _ ↦ false ]
      then err (redirect 307 endpoints.telegram_login)
      else elim user.gitlab_id [
        | none ↦ err (redirect 302 endpoints.login)
        | some _ ↦ elim user.gitlab_login [
          | none ↦ err (redirect 302 endpoints.login)
          | some _ ↦ ok (user, session)
        ]
      ]

  -- The user and the session that the handlers behind it get, or the answer that ends the request.
  -- `has_telegram`: Telegram is configured.
  unfoldable pub validate_session : Bool → Bool → Visit S → Result Answer (User × Session)
  unfolding try_find_user_by_token check_account
  validate_session verify_telegram has_telegram v = elim (try_find_user_by_token v) [
    | err e ↦ err (redirect 307 endpoints.signup)
    | ok none ↦ err (redirect 307 endpoints.signup)
    | ok (some found) ↦ check_account verify_telegram has_telegram found
  ]

  unfoldable pub validate_admin : List String → User → Result Answer (Unit {0})
  unfolding is_admin
  validate_admin admins user = if not (is_admin admins (some user)) then err forbidden else ok tt

  -- The user that a page shows, by the login in the address.
  unfoldable pub fill_user_from_query : Visit S → String → Result Answer User
  fill_user_from_query v login = elim (accounts.find_user_by_gitlab_login v.db login) [
    | err e ↦ err (redirect 307 endpoints.signup)
    | ok user ↦ ok user
  ]
