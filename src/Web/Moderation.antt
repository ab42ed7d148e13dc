-- ===== src/Web/Moderation.antt =====
-- internal/web/api.go: `moderate`, which bans a pipeline and lifts a ban.
pub mod Cache
use notmanytuples.Prelude.{
  String, Bool, true, false, not, ◌&&◌, Option, none, some, if◌then◌else◌, ◌==◌, string_eq,
}
use notmanytuples.Prelude.Int.{ℤ, pos, int_lt}
use notmanytuples.Prelude.Text.{◌<>◌}
use notmanytuples.Result.{Result, ok, err}

pub record BanRequest : Type 0 where
  pub pipeline_id : ℤ
  pub reason : String

-- The code of the answer, and the error where it is not 200.
pub data Answer : Type 0 where
  done : Answer
  bad_request : String → Answer
  not_found : String → Answer
  internal_error : String → Answer

-- The database `S`, and the cached pages: `cleared` once they are dropped.
pub record Site (S : Type 0) : Type 0 where
  pub db : S
  pub cleared : Bool

-- The database's operations, `strings.TrimSpace` and the decimal text of a number.
pub record Moderators (S : Type 0) : Type 0 where
  pub find_pipeline : S → ℤ → Bool
  pub ban_submission : S → ℤ → String → S × Option String
  pub unban_submission : S → ℤ → S × Result String Bool
  pub trim_space : String → String
  pub show : ℤ → String

module _ {S : Type 0} (m : Moderators S) where
  -- The error, or the request with its reason trimmed.
  unfoldable pub validate_ban_request : BanRequest → Bool → Result String BanRequest
  validate_ban_request req ban =
      let trimmed = m.trim_space req.reason in
      if not (int_lt (pos 0) req.pipeline_id)
      then err "pipeline_id is required"
      else if ban && trimmed == ""
      then err "reason is required"
      else ok (record req { reason = trimmed })

  answer_ban : Site S → S × Option String → Site S × Answer
  answer_ban site (t, some e) = (record site { db = t }, internal_error e)
  answer_ban site (t, none) = (record { db = t; cleared = true }, done)

  answer_unban : Site S → ℤ → S × Result String Bool → Site S × Answer
  answer_unban site id (t, err e) = (record site { db = t }, internal_error e)
  answer_unban site id (t, ok false) =
      (record site { db = t }, not_found ("pipeline " <> m.show id <> " is not banned"))
  answer_unban site id (t, ok true) = (record { db = t; cleared = true }, done)

  moderate_valid : Site S → BanRequest → Bool → Site S × Answer
  unfolding answer_ban answer_unban
  moderate_valid site req ban =
      if not (m.find_pipeline site.db req.pipeline_id)
      then (site, not_found ("unknown pipeline " <> m.show req.pipeline_id))
      else if ban
      then answer_ban site (m.ban_submission site.db req.pipeline_id req.reason)
      else answer_unban site req.pipeline_id (m.unban_submission site.db req.pipeline_id)

  -- A body that does not parse is `none`.
  unfoldable pub moderate : Site S → Option BanRequest → Bool → Site S × Answer
  unfolding moderate_valid validate_ban_request
  moderate site none ban = (site, bad_request "failed to parse request body")
  moderate site (some req) ban = elim (validate_ban_request req ban) [
    | err e ↦ (site, bad_request e)
    | ok valid ↦ moderate_valid site valid ban
  ]
