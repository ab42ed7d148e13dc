-- ===== src/Web/Login.antt =====
-- internal/web/login.go: signing up, the login through GitLab, and the link to Telegram.
pub mod Admitted
pub mod Signup
pub mod Oauth
use notmanytuples.Prelude.{
  ℕ, String, Bool, true, false, not, ◌&&◌, ◌||◌, Option, none, some, List, [], ◌∷◌, ◌++◌, map,
  if◌then◌else◌, ◌==◌, string_eq,
}
use notmanytuples.Prelude.Int.{ℤ}
use notmanytuples.Prelude.Dict.{Dict, lookup}
use notmanytuples.Prelude.Sort.{sort_slice}
use notmanytuples.Prelude.Text.{◌<>◌, is_before}
use notmanytuples.Config.{GroupConfig, SubgroupConfig, find_by_secret}
use notmanytuples.Models.{User}
use notmanytuples.Result.{Result, ok, err, and_then}
use notmanytuples.Web.Session.{
  Session, Cookies, DbError, duplicate_key, db_failed, Accounts, Visit, Answer, redirect, Endpoints,
  save_cookies, redirect_to_signup, fill_session_for_user, try_find_user_by_token,
}

pub record SignupForm : Type 0 where
  pub first_name : String
  pub last_name : String
  pub secret : String
  pub email : String

-- The account that GitLab's OAuth gives.
pub record GitlabAccount : Type 0 where
  pub id : ℤ
  pub login : String

-- The settings, the packages regexp and strings, and the other side of OAuth and of Telegram.
pub record Outside : Type 0 where
  pub groups : List GroupConfig
  pub email_pattern : String
  pub is_name : String → Bool
  pub match_string : String → String → Result String Bool
  pub title : String → String
  pub to_lower : String → String
  pub trim_space : String → String
  pub login_url : String → String
  pub exchange : String → Result String String
  pub get_gitlab_user : String → Result String GitlabAccount
  pub telegram_hash : String → String
  pub parse_int : String → Result String ℤ

module _ (outside : Outside) where
  unfoldable pub validate_email : String → Bool
  validate_email email =
      if outside.email_pattern == ""
      then true
      else elim (outside.match_string outside.email_pattern email) [
        | err e ↦ false
        | ok matched ↦ matched
      ]

  unfoldable pub normalize_name : String → String
  normalize_name name = outside.title (outside.to_lower name)

  -- The row of a new user; the fields that are not set are the zero values.
  unfoldable pub new_user : SignupForm → GroupConfig → Option SubgroupConfig → User
  unfolding normalize_name
  new_user form group subgroup = record {
    id = 0;
    gitlab_id = none;
    gitlab_login = none;
    repository = none;
    first_name = normalize_name form.first_name;
    last_name = normalize_name form.last_name;
    group_name = group.name;
    subgroup_name = elim subgroup [ none ↦ "" | some s ↦ s.name ];
    email = outside.trim_space form.email;
    telegram_id = none;
    has_retake = false;
  }

abbrev pub is_linked : User → Bool
is_linked user = elim user.gitlab_id [
  | none ↦ elim user.gitlab_login [ none ↦ false | some _ ↦ true ]
  | some _ ↦ true
]

-- Both the id and the login are set.
abbrev pub has_account : User → Bool
has_account user = elim user.gitlab_id [
  | none ↦ false
  | some _ ↦ elim user.gitlab_login [ none ↦ false | some _ ↦ true ]
]

module _ {S : Type 0} (accounts : Accounts S) (endpoints : Endpoints) (outside : Outside) where
  enter : Visit S × Result DbError (Unit {0}) → Visit S × Answer
  unfolding redirect_to_signup
  enter (v, ok _) = (v, redirect 302 endpoints.login)
  enter (v, err e) =
      redirect_to_signup accounts endpoints v "Failed to create session, try again later"

  welcome : Visit S → S × Result DbError User → Visit S × Answer
  unfolding redirect_to_signup fill_session_for_user enter
  welcome v (s, err duplicate_key) =
      redirect_to_signup accounts endpoints (record v { db = s }) "User is already registered"
  welcome v (s, err (db_failed e)) =
      redirect_to_signup accounts endpoints (record v { db = s }) "Internal error, try again later"
  welcome v (s, ok user) =
      if is_linked user
      then redirect_to_signup accounts endpoints (record v { db = s }) "User is already registered"
      else enter (fill_session_for_user accounts endpoints (record v { db = s }) user)

  unfoldable pub signup_form : Visit S → SignupForm → Visit S × Answer
  unfolding redirect_to_signup validate_email new_user find_by_secret welcome
  signup_form v form =
      if not (outside.is_name form.first_name)
      then redirect_to_signup accounts endpoints v "Invalid first name, use only Cyrillic letters"
      else if not (outside.is_name form.last_name)
      then redirect_to_signup accounts endpoints v "Invalid last name, use only Cyrillic letters"
      else if not (validate_email outside (outside.trim_space form.email))
      then redirect_to_signup accounts endpoints v "Invalid email"
      else elim (find_by_secret outside.groups form.secret) [
        | none ↦ redirect_to_signup accounts endpoints v "Invalid secret"
        | some found ↦ welcome v (accounts.add_user v.db (new_user outside form found.0 found.1))
      ]

  -- `state`: the new `uuid`. An error of `Save` is logged.
  unfoldable pub login : Visit S → String → Visit S × Answer
  unfolding save_cookies
  login v state = (
    (save_cookies accounts endpoints v (record v.cookies { oauth_state = some state })).0,
    redirect 302 (outside.login_url state),
  )

  enter_home : Visit S × Result DbError (Unit {0}) → Visit S × Answer
  unfolding redirect_to_signup
  enter_home (v, ok _) = (v, redirect 302 endpoints.home)
  enter_home (v, err e) =
      redirect_to_signup accounts endpoints v "Internal server error, try again later"

  account_set : Visit S → User → S × Result DbError (Unit {0}) → Visit S × Answer
  unfolding redirect_to_signup save_cookies
  account_set v user (s, err duplicate_key) =
      redirect_to_signup accounts endpoints (record v { db = s })
        "Gitlab account is already registered"
  account_set v user (s, err (db_failed e)) =
      redirect_to_signup accounts endpoints (record v { db = s })
        "Internal server error, try again later"
  account_set v user (s, ok _) =
      let saved = (save_cookies accounts endpoints (record v { db = s }) v.cookies).0 in
      (record saved { prepared = v.prepared ++ user ∷ [] }, redirect 307 endpoints.home)

  link_account : Visit S → User → GitlabAccount → Visit S × Answer
  unfolding fill_session_for_user enter_home account_set
  link_account v user account =
      if has_account user
      then enter_home (fill_session_for_user accounts endpoints v user)
      else account_set v
          (record user {
            gitlab_id = some account.id;
            gitlab_login = some account.login;
            repository = none;
          })
          (accounts.set_user_gitlab_account v.db user.id account.id account.login)

  -- A user without a token is looked up by the account.
  find_account_user : Visit S → GitlabAccount → Option (User × Session) → Visit S × Answer
  unfolding redirect_to_signup link_account
  find_account_user v account (some (user, session)) = link_account v user account
  find_account_user v account none = elim (accounts.find_user_by_gitlab_id v.db account.id) [
    | err e ↦
        redirect_to_signup accounts endpoints v
          "You are not registered, please try to register first"
    | ok user ↦ link_account v user account
  ]

  resolve_account : Visit S → String → Option (User × Session) → Visit S × Answer
  unfolding redirect_to_signup find_account_user
  resolve_account v code found = elim (outside.exchange code) [
    | err e ↦ redirect_to_signup accounts endpoints v "GitLab authentication failed, try again"
    | ok access_token ↦ elim (outside.get_gitlab_user access_token) [
      | err e ↦ redirect_to_signup accounts endpoints v "GitLab authentication failed, try again"
      | ok account ↦ find_account_user v account found
    ]
  ]

  same_state : Visit S → String → Bool
  same_state v state = elim v.cookies.oauth_state [ none ↦ false | some held ↦ held == state ]

  unfoldable pub oauth : Visit S → (state code : String) → Visit S × Answer
  unfolding redirect_to_signup try_find_user_by_token resolve_account same_state
  oauth v state code =
      if not (same_state v state)
      then redirect_to_signup accounts endpoints v "GitLab authentication failed, try again"
      else elim (try_find_user_by_token accounts endpoints v) [
        | err e ↦ redirect_to_signup accounts endpoints v "You are not registered, try again"
        | ok found ↦ resolve_account v code found
      ]

  -- The arguments of a query, without the hash, each value with its key.
  pairs_of : String → List String → List String
  pairs_of key [] = []
  pairs_of key (value ∷ values) = (key <> "=" <> value) ∷ pairs_of key values

  arguments_of : Dict String (List String) → List String
  unfolding pairs_of
  arguments_of [] = []
  arguments_of ((key, values) ∷ query) =
      let rest = arguments_of query in if key == "hash" then rest else pairs_of key values ++ rest

  join_lines : List String → String
  join_lines [] = ""
  join_lines (line ∷ []) = line
  join_lines (line ∷ next ∷ lines) = line <> "\n" <> join_lines (next ∷ lines)

  -- `query.Get(key)`.
  get_first : Dict String (List String) → String → String
  unfolding lookup
  get_first query key = elim (lookup key query) [
    | none ↦ ""
    | some values ↦ elim values [ [] ↦ "" | value ∷ _ ↦ value ]
  ]

  telegram_set : Visit S → S × Result DbError (Unit {0}) → Visit S × Answer
  telegram_set v (s, err e) = (record v { db = s }, redirect 307 endpoints.telegram_login)
  telegram_set v (s, ok _) = (record v { db = s }, redirect 307 endpoints.home)

  -- Behind `validate_session`, which gives the user.
  unfoldable pub telegram_callback : Visit S → User → Dict String (List String) → Visit S × Answer
  unfolding arguments_of join_lines get_first telegram_set sort_slice
  telegram_callback v user query =
      if not (
        outside.telegram_hash (join_lines (sort_slice is_before (arguments_of query)))
        == get_first query "hash")
      then (v, redirect 307 endpoints.telegram_login)
      else elim (outside.parse_int (get_first query "id")) [
        | err e ↦ (v, redirect 307 endpoints.telegram_login)
        | ok id ↦
            telegram_set v
              (accounts.set_user_telegram_id v.db (record user { telegram_id = some id }))
      ]
