-- ===== src/Web/Login/Signup.antt =====
-- Whom the signup form lets in.
use notmanytuples.Prelude.{
  String, ◌≡◌, ◌⊎◌, refl, sym, ap, inl, inr, false, none, some, string_eq, Bool-cases, Option-cases,
  arith,
}
use mathlib.Core.Path.{subst}
use notmanytuples.Config.{find_by_secret}
use notmanytuples.Models.{User}
use notmanytuples.Result.{Result, ok, err, Result-cases}
use notmanytuples.Web.Session.{
  Session, DbError, duplicate_key, db_failed, Accounts, Visit, Answer, redirect, signup_page,
  Endpoints, save_cookies, clear_session, start_session, fill_session_for_user,
}
use notmanytuples.Web.Login.Admitted.{IsAdmitted, new_user-IsAdmitted}
use notmanytuples.Web.Login.{
  SignupForm, Outside, validate_email, new_user, is_linked, enter, welcome, signup_form,
}

module _ {S : Type 0} (accounts : Accounts S) (endpoints : Endpoints) (outside : Outside) where
  -- The visit `w` is `v` without its token, or, where the browser's session cannot be saved, `v`.
  pub data IsCleared (v : Visit S) : Visit S → Type 0 where
    cleared :
        accounts.save (record v.cookies { token = some "" }) ≡ ok tt
        → IsCleared v (record v { cookies = record v.cookies { token = some "" } })
    unsaved :
        (e : DbError) → accounts.save (record v.cookies { token = some "" }) ≡ err e → IsCleared v v

  -- How a session for a user fails to start: it is not created, or the browser's is not saved.
  abbrev pub HasFailed : Visit S → User → S → Type 0
  HasFailed v user t =
      ((e : DbError) × (accounts.create_session v.db user.id ≡ (t, err e)))
      ⊎ ((session : Session) × (e : DbError) × (accounts.create_session v.db user.id
            ≡ (t, ok session))
          × (accounts.save (record v.cookies { token = some session.token }) ≡ err e))

  -- How a signup ends. Only the last way sets a token: in the others the signup page is shown.
  pub data IsOutcome (v : Visit S) (form : SignupForm) : Visit S × Answer → Type 0 where
    refused :
        (message : String) (w : Visit S) → IsCleared v w → IsOutcome v form (w, signup_page message)
    not_added :
        (user : User) (message : String) (s : S) (w : Visit S)
        → IsAdmitted outside form user
        → (accounts.add_user v.db user).0 ≡ s
        → IsCleared (record v { db = s }) w
        → IsOutcome v form (w, signup_page message)
    no_session :
        (user added : User) (s t : S) (message : String) (w : Visit S)
        → IsAdmitted outside form user
        → accounts.add_user v.db user ≡ (s, ok added)
        → HasFailed (record v { db = s }) added t
        → IsCleared (record v { db = t }) w
        → IsOutcome v form (w, signup_page message)
    signed_up :
        (user added : User) (s t : S) (session : Session)
        → IsAdmitted outside form user
        → accounts.add_user v.db user ≡ (s, ok added)
        → (added.gitlab_id ≡ none) × (added.gitlab_login ≡ none)
        → accounts.create_session s added.id ≡ (t, ok session)
        → accounts.save (record v.cookies { token = some session.token }) ≡ ok tt
        → IsOutcome v form (
          record v { db = t; cookies = record v.cookies { token = some session.token } },
          redirect 302 endpoints.login,
        )

  clear_session-IsCleared : (v : Visit S) → IsCleared v (clear_session accounts endpoints v)
  unfolding clear_session save_cookies
  clear_session-IsCleared v =
      let cookies = record v.cookies { token = some "" } in
      elim (Result-cases (accounts.save cookies)) [
        | inl (_, saved) ↦
            let step : clear_session accounts endpoints v ≡ record v { cookies = cookies } =
              rw (clear_session, save_cookies, saved) refl in
            subst (IsCleared v) (sym step) (cleared saved)
        | inr (e, failed) ↦
            let step : clear_session accounts endpoints v ≡ v =
              rw (clear_session, save_cookies, failed) refl in
            subst (IsCleared v) (sym step) (unsaved e failed)
      ]

  not_linked :
      (user : User) → is_linked user ≡ false → (user.gitlab_id ≡ none) × (user.gitlab_login ≡ none)
  not_linked user h = elim (Option-cases user.gitlab_id) [
    | inr (id, there) ↦ absurd (ground (arith, there))
    | inl no_id ↦ elim (Option-cases user.gitlab_login) [
      | inr (login, there) ↦ absurd (ground (arith, no_id, there))
      | inl no_login ↦ (no_id, no_login)
    ]
  ]

  -- `enter` after a call that failed.
  no_session-IsOutcome :
      (v : Visit S) (form : SignupForm) (user added : User) (s t : S) (e : DbError)
      → IsAdmitted outside form user
      → accounts.add_user v.db user ≡ (s, ok added)
      → HasFailed (record v { db = s }) added t
      → IsOutcome v form (enter accounts endpoints outside (record v { db = t }, err e))
  unfolding enter
  no_session-IsOutcome v form user added s t e admitted kept failed =
      no_session user added s t _ _ admitted kept failed
        (clear_session-IsCleared (record v { db = t }))

  enter-IsOutcome :
      (v : Visit S) (form : SignupForm) (user added : User) (s : S)
      (reply : S × Result DbError Session)
      → IsAdmitted outside form user
      → accounts.add_user v.db user ≡ (s, ok added)
      → is_linked added ≡ false
      → accounts.create_session s added.id ≡ reply
      → IsOutcome v form (
          enter accounts endpoints outside
            (start_session accounts endpoints (record v { db = s }) reply))
  unfolding enter start_session save_cookies
  enter-IsOutcome v form user added s (t, err e) admitted kept fresh asked =
      no_session-IsOutcome v form user added s t e admitted kept (inl (e, asked))
  enter-IsOutcome v form user added s (t, ok session) admitted kept fresh asked =
      let cookies = record v.cookies { token = some session.token } in
      let goal = λ (r : Visit S × Result DbError (Unit {0})).
        IsOutcome v form (enter accounts endpoints outside r) in
      elim (Result-cases (accounts.save cookies)) [
        | inl (_, saved) ↦
            let step : save_cookies accounts endpoints (record v { db = t }) cookies
                ≡ (record v { db = t; cookies = cookies }, ok tt) =
              rw (save_cookies, saved) refl in
            subst goal (sym step)
              (signed_up user added s t session admitted kept (not_linked added fresh) asked saved)
        | inr (e, failed) ↦
            let step : save_cookies accounts endpoints (record v { db = t }) cookies
                ≡ (record v { db = t }, err e) =
              rw (save_cookies, failed) refl in
            subst goal (sym step) (
              no_session-IsOutcome v form user added s t e admitted kept
                (inr (session, e, asked, failed)))
      ]

  welcome-IsOutcome :
      (v : Visit S) (form : SignupForm) (user : User) (reply : S × Result DbError User)
      → IsAdmitted outside form user
      → accounts.add_user v.db user ≡ reply
      → IsOutcome v form (welcome accounts endpoints outside v reply)
  unfolding welcome fill_session_for_user
  welcome-IsOutcome v form user (s, err duplicate_key) admitted h =
      not_added user _ s _ admitted (ap (λ r. r.0) h)
        (clear_session-IsCleared (record v { db = s }))
  welcome-IsOutcome v form user (s, err (db_failed e)) admitted h =
      not_added user _ s _ admitted (ap (λ r. r.0) h)
        (clear_session-IsCleared (record v { db = s }))
  welcome-IsOutcome v form user (s, ok added) admitted h = elim (Bool-cases (is_linked added)) [
    | inl linked ↦
        rw (welcome, linked)
          (not_added user _ s _ admitted (ap (λ r. r.0) h)
            (clear_session-IsCleared (record v { db = s })))
    | inr fresh ↦ rw (welcome, fresh) (enter-IsOutcome v form user added s _ admitted h fresh refl)
  ]

  refused-IsOutcome :
      (v : Visit S) (form : SignupForm) (message : String)
      → IsOutcome v form (clear_session accounts endpoints v, signup_page message)
  refused-IsOutcome v form message = refused message _ (clear_session-IsCleared v)

  -- A signup adds a row only for a form that is in order: names and address pass their tests, and
  -- the secret opens the configured group that the row names. The browser gets a new token only if
  -- the row that was added has no GitLab account yet and its session was created and saved; in every
  -- other case the signup page is shown, and the token is emptied unless the browser's session
  -- cannot be saved, which leaves it as it was.
  pub signup_form_admits :
      (v : Visit S) (form : SignupForm)
      → IsOutcome v form (signup_form accounts endpoints outside v form)
  unfolding signup_form
  signup_form_admits v form = elim (Bool-cases (outside.is_name form.first_name)) [
    | inr bad ↦ rw (signup_form, bad) (refused-IsOutcome v form _)
    | inl first ↦ elim (Bool-cases (outside.is_name form.last_name)) [
      | inr bad ↦ rw (signup_form, first, bad) (refused-IsOutcome v form _)
      | inl last ↦ elim (Bool-cases (validate_email outside (outside.trim_space form.email))) [
        | inr bad ↦ rw (signup_form, first, last, bad) (refused-IsOutcome v form _)
        | inl email ↦ elim (Option-cases (find_by_secret outside.groups form.secret)) [
          | inl unknown ↦ rw (signup_form, first, last, email, unknown) (refused-IsOutcome v form _)
          | inr (found, known) ↦
              rw (signup_form, first, last, email, known)
                (welcome-IsOutcome v form (new_user outside form found.0 found.1) _
                  (new_user-IsAdmitted outside form found first last email known) refl)
        ]
      ]
    ]
  ]
