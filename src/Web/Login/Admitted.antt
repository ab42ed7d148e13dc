-- ===== src/Web/Login/Admitted.antt =====
-- The row that a signup form makes.
use notmanytuples.Prelude.{
  String, ◌≡◌, ◌⊎◌, refl, inl, inr, true, Option, none, some, ◌==◌, string_eq, Bool-cases, arith,
  eq_iff,
}
use notmanytuples.Prelude.Lists.{In}
use notmanytuples.Config.{GroupConfig, SubgroupConfig, find_by_secret}
use notmanytuples.Config.Secrets.{Opens, find_by_secret_sound}
use notmanytuples.Models.{User}
use notmanytuples.Result.{ok, Result-cases}
use notmanytuples.Web.Login.{SignupForm, Outside, validate_email, new_user}

-- The row of a user whose form is in order: both names and the address pass their tests, and the
-- secret is not empty and opens the configured group, or the subgroup of it, that the row names. The
-- row has no account.
pub record IsAdmitted (outside : Outside) (form : SignupForm) (user : User) : Type 0 where
  pub named : (outside.is_name form.first_name ≡ true) × (outside.is_name form.last_name ≡ true)
  pub reachable :
      (outside.email_pattern ≡ "")
      ⊎ (outside.match_string outside.email_pattern (outside.trim_space form.email) ≡ ok true)
  pub group : GroupConfig
  pub subgroup : Option SubgroupConfig
  pub configured : In group outside.groups
  pub opened : Opens form.secret (group, subgroup)
  pub group_named : user.group_name ≡ group.name
  pub subgroup_named : (s : SubgroupConfig) → subgroup ≡ some s → user.subgroup_name ≡ s.name
  pub no_subgroup : subgroup ≡ none → user.subgroup_name ≡ ""
  pub first_name : user.first_name ≡ outside.title (outside.to_lower form.first_name)
  pub last_name : user.last_name ≡ outside.title (outside.to_lower form.last_name)
  pub email : user.email ≡ outside.trim_space form.email
  pub no_account : (user.gitlab_id ≡ none) × (user.gitlab_login ≡ none)

validate_email-Reachable :
    (outside : Outside) (email : String)
    → validate_email outside email ≡ true
    → (outside.email_pattern ≡ "") ⊎ (outside.match_string outside.email_pattern email ≡ ok true)
unfolding validate_email
validate_email-Reachable outside email h = elim (Bool-cases (outside.email_pattern == "")) [
  | inl any ↦ inl ((eq_iff outside.email_pattern "").0 any)
  | inr other ↦ elim (Result-cases (outside.match_string outside.email_pattern email)) [
    | inr (e, failed) ↦ absurd (ground (arith, other, failed))
    | inl (matched, answered) ↦ inr (ground (arith, other, answered))
  ]
]

pub new_user-IsAdmitted :
    (outside : Outside) (form : SignupForm) (found : GroupConfig × Option SubgroupConfig)
    → outside.is_name form.first_name ≡ true
    → outside.is_name form.last_name ≡ true
    → validate_email outside (outside.trim_space form.email) ≡ true
    → find_by_secret outside.groups form.secret ≡ some found
    → IsAdmitted outside form (new_user outside form found.0 found.1)
unfolding new_user
new_user-IsAdmitted outside form found first last email known =
    let (configured, opened) = find_by_secret_sound outside.groups form.secret found known in
    record {
      named = (first, last);
      reachable = validate_email-Reachable outside (outside.trim_space form.email) email;
      group = found.0;
      subgroup = found.1;
      configured = configured;
      opened = opened;
      group_named = refl;
      subgroup_named = λ s there. rw there refl;
      no_subgroup = λ missing. rw missing refl;
      first_name = refl;
      last_name = refl;
      email = refl;
      no_account = (refl, refl);
    }
