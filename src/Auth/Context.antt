-- ===== src/Auth/Context.antt =====
-- `authenticate_token` and `authenticate_session`: from a bearer token or a session to its user.
use auth_n_z.Common.{
  if◌then◌else◌, or_default, lower, strip, drop, Dict, lookup, ℕ, String, ◌⊎◌, inl, inr, not,
  Option, none, some, ◌==◌, starts_with, has_text,
}
use auth_n_z.Common.Jwt.{Claim, Claims, texts}
use auth_n_z.Identity.{User}
use auth_n_z.Token.Claims.{text_claim}
use auth_n_z.Token.Service.{Tokens, Verified, payload, message, decode_and_verify}
use auth_n_z.Session.Store.{Session, Sessions, get_session, refresh_session_ttl}
use auth_n_z.Auth.Login.{Services}

-- the results of the two operations
pub data Context : Type 0 where
  failed : (reason : String) → Context
  of_token : (user_id username : String) → (roles : Option Claim) → Claims → Context
  of_session : (user_id username : String) → (created_at : ℕ) → Dict Claim → Context

-- the token after an optional "Bearer "
unfoldable pub clean_token : String → String
clean_token token =
    let clean = strip token in
    if starts_with (lower clean) "bearer " then strip (drop 7 clean) else clean

-- the reason for the message of a ValueError
unfoldable pub reason_of : String → String
reason_of message =
    let error_message = lower message in
    if has_text "expired" error_message
    then "TOKEN_EXPIRED"
    else if has_text "revoked" error_message
    then "TOKEN_REVOKED"
    else "TOKEN_INVALID"

module _ (V : Services) where
  -- the user, who must be there and active
  unfoldable pub active_user : String → V.U.Db → String ⊎ User
  active_user id users = elim (V.U.get_by_id id users) [
    | none ↦ inl "USER_NOT_FOUND"
    | some user ↦ if user.is_active then inr user else inl "ACCOUNT_INACTIVE"
  ]

  -- `authenticate_token` of the claims of a valid token
  unfoldable pub context_of : Claims → V.U.Db → Context
  context_of claims users =
      let id = or_default (text_claim "sub" claims) "" in
      if not (or_default (text_claim "type" claims) "" == "access")
      then failed "INVALID_TOKEN_TYPE"
      else elim (active_user id users) [
        | inl reason ↦ failed reason
        | inr user ↦
            of_token id user.username (some (or_default (lookup "roles" claims) (texts user.roles)))
              claims
      ]

  -- `authenticate_token` of the result of `decode_and_verify`
  unfoldable pub context_of_verified : Verified → V.U.Db → Context
  context_of_verified (payload claims) users = context_of claims users
  context_of_verified error users = failed (reason_of (message error))

  -- `authenticate_token`
  unfoldable pub authenticate_token : ℕ → String → V.U.Db → Tokens V.R → Context × Tokens V.R
  authenticate_token now token users s =
      let (verified, s') = decode_and_verify V.R V.jwt now (clean_token token) s in
      if token == "" then (failed "MISSING_TOKEN", s) else (context_of_verified verified users, s')

  -- `authenticate_session` of a session that was found
  unfoldable pub context_of_session :
      String → Session → V.U.Db → Sessions V.S → Context × Sessions V.S
  context_of_session id session users s = elim (active_user session.user_id users) [
    | inl reason ↦ (failed reason, s)
    | inr user ↦ (
      of_session session.user_id user.username session.created_at session.fields,
      (refresh_session_ttl V.S id 3600 s).1,
    )
  ]

  -- `authenticate_session`
  unfoldable pub authenticate_session : String → V.U.Db → Sessions V.S → Context × Sessions V.S
  authenticate_session id users s =
      let (found, s') = get_session V.S id s in
      if id == "" then (failed "MISSING_SESSION_ID", s) else elim found [
        | none ↦ (failed "SESSION_EXPIRED", s')
        | some session ↦ context_of_session id session users s'
      ]
