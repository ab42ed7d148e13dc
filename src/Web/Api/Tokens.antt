-- ===== src/Web/Api/Tokens.antt =====
-- The API changes nothing for a token that is not configured.
use notmanytuples.Prelude.{◌≡◌, refl, inl, inr, String, Bool, true, false}
use notmanytuples.Result.{Result, ok, err, Result-cases}
use notmanytuples.Web.Api.{
  ReportRequest, Refusal, Settings, Tables, is_token_valid, validate_token, report, create_flag,
  change_group,
}

abbrev is_refusal : {A : Type 0} → Result Refusal A → Bool
is_refusal (ok a) = false
is_refusal (err refusal) = true

-- The answer is an error, and the tables are as they were.
abbrev pub IsRefused : {S A : Type 0} → S → S × Result Refusal A → Type 0
IsRefused s r = (r.0 ≡ s) × (is_refusal r.1 ≡ true)

module _ {F S : Type 0} (settings : Settings F) (tables : Tables F S) where
  report-IsRefused :
      (s : S) (req : ReportRequest)
      → is_token_valid settings req.token ≡ false
      → IsRefused s (report settings tables s (ok req))
  unfolding report
  report-IsRefused s req bad = elim (Result-cases (settings.atoi req.pipeline_id)) [
    | inr (e, h) ↦ rw (report, h) (refl, refl)
    | inl (id, h) ↦ elim (Result-cases (settings.atoi req.user_id)) [
      | inr (e, k) ↦ rw (report, h, k) (refl, refl)
      | inl (user_id, k) ↦ rw (report, h, k, bad) (refl, refl)
    ]
  ]

  -- With a token that is not among the configured ones, a report, a request for a flag, a change of
  -- group, and whatever handler stands behind validateToken (override, ban and unban) are refused,
  -- and the tables are left as they were.
  pub tokens_guard :
      (s : S) (token : String)
      → is_token_valid settings token ≡ false
      → ((req : ReportRequest)
          → req.token ≡ token
          → IsRefused s (report settings tables s (ok req)))
        × ((task : String)
            → IsRefused s
                (create_flag settings tables s (ok (record { token = token; task = task }))))
        × ((login group_name : String)
            → IsRefused s (
                change_group settings tables s
                  (ok (record { token = token; login = login; group_name = group_name }))))
        × ((A : Type 0) (handler : S → S × Result Refusal A)
            → IsRefused s (validate_token settings token handler s))
  unfolding create_flag change_group validate_token
  tokens_guard s token bad = (
    λ req same. report-IsRefused s req (rw same bad),
    λ task. rw (create_flag, bad) (refl, refl),
    λ login group_name. rw (change_group, bad) (refl, refl),
    λ _ handler. rw (validate_token, bad) (refl, refl),
  )
