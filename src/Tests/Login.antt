-- ===== src/Tests/Login.antt =====
-- A signup and a login through GitLab, on a database that counts its calls.
use notmanytuples.Prelude.{ℕ, suc, ◌≡◌, refl, string_eq, true, none, some, [], ◌∷◌}
use notmanytuples.Prelude.Int.{pos}
use notmanytuples.Models.{User}
use notmanytuples.Result.{ok}
use notmanytuples.Web.Session.{Session, Cookies, Accounts, Visit, redirect, Endpoints}
use notmanytuples.Web.Login.{SignupForm, Outside, signup_form, oauth}
use notmanytuples.Web.Login.Signup.{IsOutcome as IsSignup, signup_form_admits}
use notmanytuples.Web.Login.Oauth.{IsOutcome, oauth_outcome}
use notmanytuples.Tests.Data.{ann}
use notmanytuples.Tests.Config.{hse}

abbrev pub session : Session
session = record { id = 1; token = "t0ken"; user_id = 1 }

abbrev pub linked : User
linked = record ann { gitlab_id = some (pos 2); telegram_id = some (pos 9) }

abbrev pub accounts : Accounts ℕ
accounts = record {
  add_user = λ n user. (suc n, ok user);
  create_session = λ n id. (suc n, ok session);
  find_user_by_session = λ n token. ok (linked, session);
  find_user_by_gitlab_id = λ n id. ok linked;
  find_user_by_gitlab_login = λ n login. ok linked;
  set_user_gitlab_account = λ n user id login. (suc n, ok tt);
  set_user_telegram_id = λ n user. (suc n, ok tt);
  save = λ cookies. ok tt;
}

abbrev pub endpoints : Endpoints
endpoints = record {
  home = "/";
  login = "/login";
  signup = "/signup";
  telegram_login = "/telegram/login";
}

abbrev outside : Outside
outside = record {
  groups = hse ∷ [];
  email_pattern = "";
  is_name = λ name. true;
  match_string = λ pattern email. ok true;
  title = λ text. text;
  to_lower = λ text. text;
  trim_space = λ text. text;
  login_url = λ state. "https://gitlab/oauth";
  exchange = λ code. ok "access";
  get_gitlab_user = λ access_token. ok (record { id = pos 2; login = "ann" });
  telegram_hash = λ text. "hash";
  parse_int = λ text. ok (pos 9);
}

abbrev pub browser : Cookies
browser = record { token = none; oauth_state = some "state"; admin_csrf = some "csrf" }

abbrev visit : Visit ℕ
visit = record { db = 0; cookies = browser; prepared = [] }

abbrev form : SignupForm
form = record { first_name = "Анна"; last_name = "Ли"; secret = "moon"; email = "ann@example.com" }

signed_up_run : (signup_form accounts endpoints outside visit form).1 ≡ redirect 302 "/login"
unfolding signup_form
signed_up_run = refl

signup_form_admits_example :
    IsSignup accounts endpoints outside visit form
      (signup_form accounts endpoints outside visit form)
signup_form_admits_example = signup_form_admits accounts endpoints outside visit form

oauth_run : (oauth accounts endpoints outside visit "state" "code").0.db ≡ 1
unfolding oauth
oauth_run = refl

oauth_outcome_example :
    IsOutcome accounts endpoints outside visit "state" "code"
      (oauth accounts endpoints outside visit "state" "code").0.db
oauth_outcome_example = oauth_outcome accounts endpoints outside visit "state" "code"
