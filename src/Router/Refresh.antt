-- ===== src/Router/Refresh.antt =====
-- `refresh_tokens` of api/v1/auth_router.py. A rejection is an `HTTPException` with status 401. The
-- cookies of the answer, the audit log and the email of a reuse are left out. The request has two
-- parts: between them it waits for the user repository, and other requests may run.
use auth_n_z.Common.{
  if◌then◌else◌, or_default, strip_quotes, ℕ, String, Bool, false, not, Option, none, some, [], ◌∷◌,
  ◌==◌, text_append, text_or,
}
use auth_n_z.Common.Jwt.{Claims, Decoded, claims, expired, invalid, texts}
use auth_n_z.Identity.{User}
use auth_n_z.Token.Claims.{create_access_token, create_refresh_token, text_claim, num_claim}
use auth_n_z.Token.Service.{
  Tokens, is_family_revoked, is_token_revoked, revoke_family, revoke_token,
}
use auth_n_z.Session.Store.{Sessions, delete_all_user_sessions}
use auth_n_z.Device.Service.{Devices}
use auth_n_z.Auth.Login.{Services}

pub data Answer : Type 0 where
  rotated : (access_token refresh_token user_id : String) → Answer
  rejected : (detail : String) → Answer

-- how the first part of the request ends
pub data Checked : Type 0 where
  passed : Claims → Checked
  refused : (detail : String) → Checked

-- the random texts of a request
pub record Draw : Type 0 where
  pub access_jti : String
  pub refresh_jti : String
  pub family_id : String

-- the settings of the token service, in seconds
pub record Lifetimes : Type 0 where
  pub access : ℕ
  pub refresh : ℕ

abbrev pub missing_detail : String
missing_detail = "Missing refresh token (refresh_token cookie or payload required)."

abbrev pub not_refresh_detail : String
not_refresh_detail = "Provided token is not a refresh token."

abbrev pub family_detail : String
family_detail = "Token family revoked due to previous security violation."

abbrev pub reuse_detail : String
reuse_detail =
    "Security violation: Refresh token reuse detected. All tokens in this family have been revoked."

abbrev pub inactive_detail : String
inactive_detail = "User account is inactive or no longer exists."

-- `payload.get(k)`, where an empty text counts as none
abbrev pub claim_of : String → Claims → String
claim_of k c = or_default (text_claim k c) ""

module _ (V : Services) where
  -- what the token service, the session store and the device trust service keep
  pub record App : Type 0 where
    pub tokens : Tokens V.R
    pub sessions : Sessions V.S
    pub devices : Devices

  -- the answer to a token that was used before: its family is revoked, and its user's sessions end
  unfoldable pub end_family : Claims → App → App
  end_family c s = record s {
    tokens =
        if claim_of "family_id" c == ""
        then s.tokens
        else (revoke_family V.R (claim_of "family_id" c) 604800 s.tokens).1;
    sessions =
        if claim_of "sub" c == ""
        then s.sessions
        else (delete_all_user_sessions V.S (claim_of "sub" c) none s.sessions).1;
  }

  -- `family_id and token_svc.is_family_revoked(family_id)`
  unfoldable pub family_test : Claims → Tokens V.R → Bool × Tokens V.R
  family_test c s =
      if claim_of "family_id" c == ""
      then (false, s)
      else is_family_revoked V.R (claim_of "family_id" c) s

  -- `jti and token_svc.is_token_revoked(jti)`
  unfoldable pub jti_test : Claims → Tokens V.R → Bool × Tokens V.R
  jti_test c s =
      if claim_of "jti" c == "" then (false, s) else is_token_revoked V.R V.jwt (claim_of "jti" c) s

  -- the checks on the payload
  unfoldable pub check_claims : Claims → App → Checked × App
  check_claims c s =
      let (stolen, tokens) = family_test c s.tokens in
      let (used, tokens') = jti_test c tokens in
      if not (claim_of "type" c == "refresh")
      then (refused not_refresh_detail, s)
      else if stolen
      then (refused family_detail, record s { tokens = tokens })
      else if used
      then (refused reuse_detail, end_family c (record s { tokens = tokens' }))
      else (passed c, record s { tokens = tokens' })

  unfoldable pub check_decoded : Decoded → App → Checked × App
  check_decoded (claims c) s = check_claims c s
  check_decoded expired s = (refused "Refresh token has expired.", s)
  check_decoded (invalid e) s = (refused (text_append "Invalid refresh token: " e), s)

  -- the first part, on the token of the payload or of the cookie
  unfoldable pub check_refresh : (now : ℕ) (raw_token : String) → App → Checked × App
  check_refresh now raw_token s =
      if raw_token == ""
      then (refused missing_detail, s)
      else check_decoded (V.jwt.decode now (strip_quotes raw_token)) s

  -- the user of the payload; the repository finds none for an empty id
  unfoldable pub user_of : Claims → V.U.Db → Option User
  user_of c users = if claim_of "sub" c == "" then none else V.U.get_by_id (claim_of "sub" c) users

  -- `if jti: token_svc.revoke_token(jti, expires_at=int(payload.get("exp", 0)))`
  unfoldable pub revoke_own : (now : ℕ) → Claims → App → App
  revoke_own now c s = if claim_of "jti" c == "" then s else record s {
    tokens =
        (revoke_token V.R V.jwt now (claim_of "jti" c) (some (or_default (num_claim "exp" c) 0))
          s.tokens).1;
  }

  -- the second part: the token is revoked and new ones are made
  unfoldable pub rotate : (now : ℕ) → Lifetimes → Draw → Claims → V.U.Db → App → Answer × App
  rotate now lifetimes draw c users s = elim (user_of c users) [
    | none ↦ (rejected inactive_detail, s)
    | some user ↦
        let user_id = claim_of "sub" c in
        let extra : Claims = ("roles", texts user.roles) ∷ [] in
        if not user.is_active then (rejected inactive_detail, s) else (
          rotated (create_access_token V.jwt now lifetimes.access draw.access_jti user_id extra)
              (create_refresh_token V.jwt now lifetimes.refresh draw.refresh_jti draw.family_id
                user_id (text_claim "family_id" c) extra)
              user_id,
          revoke_own now c s,
        )
  ]

  unfoldable pub rotate_checked :
      (now : ℕ) → Lifetimes → Draw → V.U.Db → Checked × App → Answer × App
  rotate_checked now lifetimes draw users (refused detail, s) = (rejected detail, s)
  rotate_checked now lifetimes draw users (passed c, s) = rotate now lifetimes draw c users s

  -- `refresh_tokens`
  unfoldable pub refresh_tokens :
      (now : ℕ) → Lifetimes → Draw → (body cookie : Option String) → V.U.Db → App → Answer × App
  refresh_tokens now lifetimes draw body cookie users s =
      rotate_checked now lifetimes draw users
        (check_refresh now (text_or body (or_default cookie "")) s)
