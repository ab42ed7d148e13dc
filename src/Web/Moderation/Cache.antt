-- ===== src/Web/Moderation/Cache.antt =====
-- Moderation and the cached pages.
use notmanytuples.Prelude.{
  String, ◌≡◌, refl, inl, inr, Bool, true, false, Option, none, some, Bool-cases, arith,
}
use notmanytuples.Result.{Result, ok, err, Result-cases}
use notmanytuples.Prelude.Int.{ℤ}
use notmanytuples.Web.Moderation.{
  BanRequest, Answer, done, bad_request, Site, Moderators, validate_ban_request, answer_ban,
  answer_unban, moderate_valid, moderate,
}

-- `done` is answered.
abbrev pub is_done : Answer → Bool
is_done done = true
is_done _ = false

-- The request was refused before the database was asked.
abbrev pub is_bad : Answer → Bool
is_bad (bad_request e) = true
is_bad _ = false

module _ {S : Type 0} (m : Moderators S) (db : S) where
  abbrev pub site : Site S
  site = record { db = db; cleared = false }

  answer_ban-cleared :
      (reply : S × Option String)
      → (answer_ban m site reply).0.cleared ≡ is_done (answer_ban m site reply).1
  unfolding answer_ban
  answer_ban-cleared (t, some e) = refl
  answer_ban-cleared (t, none) = refl

  answer_unban-cleared :
      (id : ℤ) (reply : S × Result String Bool)
      → (answer_unban m site id reply).0.cleared ≡ is_done (answer_unban m site id reply).1
  unfolding answer_unban
  answer_unban-cleared id (t, err e) = refl
  answer_unban-cleared id (t, ok false) = refl
  answer_unban-cleared id (t, ok true) = refl

  moderate_valid-cleared :
      (req : BanRequest) (ban : Bool)
      → (moderate_valid m site req ban).0.cleared ≡ is_done (moderate_valid m site req ban).1
  unfolding moderate_valid
  moderate_valid-cleared req ban = elim (Bool-cases (m.find_pipeline db req.pipeline_id)) [
    | inr e ↦ rw (e, moderate_valid) refl
    | inl e ↦ elim (Bool-cases ban) [
      | inl b ↦ rw (e, b, moderate_valid) (answer_ban-cleared _)
      | inr b ↦ rw (e, b, moderate_valid) (answer_unban-cleared req.pipeline_id _)
    ]
  ]

  answer_ban_not_bad : (reply : S × Option String) → is_bad (answer_ban m site reply).1 ≡ false
  unfolding answer_ban
  answer_ban_not_bad (t, some e) = refl
  answer_ban_not_bad (t, none) = refl

  answer_unban_not_bad :
      (id : ℤ) (reply : S × Result String Bool) → is_bad (answer_unban m site id reply).1 ≡ false
  unfolding answer_unban
  answer_unban_not_bad id (t, err e) = refl
  answer_unban_not_bad id (t, ok false) = refl
  answer_unban_not_bad id (t, ok true) = refl

  moderate_valid_not_bad :
      (req : BanRequest) (ban : Bool) → is_bad (moderate_valid m site req ban).1 ≡ false
  unfolding moderate_valid
  moderate_valid_not_bad req ban = elim (Bool-cases (m.find_pipeline db req.pipeline_id)) [
    | inr e ↦ rw (e, moderate_valid) refl
    | inl e ↦ elim (Bool-cases ban) [
      | inl b ↦ rw (e, b, moderate_valid) (answer_ban_not_bad _)
      | inr b ↦ rw (e, b, moderate_valid) (answer_unban_not_bad req.pipeline_id _)
    ]
  ]

  -- From pages that are cached, moderation drops the cached pages exactly if it answers that it is
  -- done; a request that is answered as bad leaves the database as it was.
  pub moderate_cache :
      (body : Option BanRequest) (ban : Bool)
      → ((moderate m site body ban).0.cleared ≡ is_done (moderate m site body ban).1)
        × (is_bad (moderate m site body ban).1 ≡ true → (moderate m site body ban).0 ≡ site)
  unfolding moderate
  moderate_cache none ban = (refl, λ h. refl)
  moderate_cache (some req) ban = elim (Result-cases (validate_ban_request m req ban)) [
    | inr (e, bad) ↦ rw (bad, moderate) (refl, λ h. refl)
    | inl (valid, good) ↦
        rw (good, moderate)
          (
            moderate_valid-cleared valid ban,
            λ h. absurd (ground (arith, moderate_valid_not_bad valid ban)),
          )
  ]
