-- ===== src/Auth/Accepted.antt =====
-- Who is let in by `authenticate_credentials`, by a bearer token and by a session.
use auth_n_z.Common.{
  ltb, if◌then◌else◌, is_some, or_default, ℕ, String, ◌≡◌, refl, Bool, true, false, not, ◌&&◌, ◌||◌,
  Option, none, some, arith, ◌==◌,
}
use auth_n_z.Identity.{User}
use auth_n_z.Token.Claims.{text_claim}
use auth_n_z.Token.Service.{
  Tokens, Verified, payload, token_revoked, family_revoked, token_expired, token_invalid,
  decode_and_verify,
}
use auth_n_z.Session.Store.{Sessions, get_session}
use auth_n_z.Auth.Lockout.{
  Attempt, check_account_lockout, record_failed_attempt, clear_failed_attempts,
}
use auth_n_z.Auth.Login.{
  Services, World, Fresh, Login, success, failed as refused_for, has_mfa, check_trust, finish_login,
  rehash, refuse, check_password, authenticate_credentials,
}
use auth_n_z.Auth.Context.{
  Context, of_token, of_session, failed, authenticate_session, context_of_session, active_user,
  context_of, context_of_verified, clean_token, authenticate_token,
}

-- a login that is let in
unfoldable pub is_success : Login → Bool
is_success (success _) = true
is_success _ = false

-- a context, not an error
unfoldable pub is_context : Context → Bool
is_context (of_token _ _ _ _) = true
is_context (of_session _ _ _ _) = true
is_context (failed _) = false

module _ (V : Services) where
  let_in_with_device :
      (now : ℕ) (fresh : Fresh) (user : User) (token agent ip : Option String) (w : World V)
      → is_success (finish_login V now fresh user token agent ip w).0
        ≡ (not (has_mfa V user) || is_some (check_trust V now user token agent ip w).0)
  unfolding finish_login is_success
  let_in_with_device now fresh user token agent ip w = ground arith

  refused : (user : User) (attempt : Attempt) → is_success (refuse V user attempt) ≡ false
  unfolding refuse is_success
  refused user attempt = ground arith

  -- what `authenticate_credentials` asks of a user: active, not locked, the right password, and, with
  -- a second factor, a trusted device
  pub lets_in : ℕ → Fresh → User → String → (token agent ip : Option String) → World V → Bool
  lets_in now fresh user password token agent ip w =
      let (remaining, s) = check_account_lockout V.R now user.id w.auth in
      let s' = clear_failed_attempts V.R user.id s in
      user.is_active
      && not (ltb 0 (or_default remaining 0))
      && V.hasher.verify password user.hashed_password
      && (not (has_mfa V user)
          || is_some
              (check_trust V now user token agent ip
                (rehash V user password (record w { auth = s' }))).0)

  let_in_password :
      (now : ℕ) (fresh : Fresh) (user : User) (password : String) (token agent ip : Option String)
      (w : World V)
      → let cleared = record w { auth = clear_failed_attempts V.R user.id w.auth } in
        is_success (check_password V now fresh user password token agent ip w).0 ≡ (
          V.hasher.verify password user.hashed_password
          && (not (has_mfa V user)
              || is_some
                  (check_trust V now user token agent ip (rehash V user password cleared)).0))
  unfolding check_password
  let_in_password now fresh user password token agent ip w =
      let cleared = record w { auth = clear_failed_attempts V.R user.id w.auth } in
      ground (
        arith,
        refused user (record_failed_attempt V.R now user.id w.auth).0,
        let_in_with_device now fresh user token agent ip (rehash V user password cleared),
      )

  -- A login succeeds exactly if the identifier is that of a user who is active and not locked out,
  -- the password is the user's, and the user has no second factor or presents a trusted device; and
  -- the login of an unknown identifier fails and changes nothing.
  pub authenticate_credentials-lets_in :
      (now : ℕ) (fresh : Fresh) (identifier password : String) (token agent ip : Option String)
      (w : World V)
      → (V.U.get_by_identifier identifier w.users ≡ none
          → authenticate_credentials V now fresh identifier password token agent ip w
            ≡ (refused_for "INVALID_CREDENTIALS", w))
        × ((user : User)
            → V.U.get_by_identifier identifier w.users ≡ some user
            → is_success
                (authenticate_credentials V now fresh identifier password token agent ip w).0
              ≡ lets_in now fresh user password token agent ip w)
  unfolding authenticate_credentials is_success lets_in
  authenticate_credentials-lets_in now fresh identifier password token agent ip w = (
    λ unknown. rw (authenticate_credentials, unknown) refl,
    λ user known.
        let s = (check_account_lockout V.R now user.id w.auth).1 in
        rw (authenticate_credentials, known)
          (ground (
            arith,
            let_in_password now fresh user password token agent ip (record w { auth = s }),
          )),
  )

  -- an active user with that id
  unfoldable pub is_active_id : String → V.U.Db → Bool
  is_active_id id users = elim (V.U.get_by_id id users) [
    | none ↦ false
    | some user ↦ user.is_active
  ]

  -- what `authenticate_token` asks of the result of `decode_and_verify`
  unfoldable pub speaks_for : Verified → V.U.Db → Bool
  speaks_for (payload claims) users =
      or_default (text_claim "type" claims) "" == "access"
      && is_active_id (or_default (text_claim "sub" claims) "") users
  speaks_for _ users = false

  context_of-is_context :
      (verified : Verified) (users : V.U.Db)
      → is_context (context_of_verified V verified users) ≡ speaks_for verified users
  unfolding context_of_verified context_of active_user is_context speaks_for is_active_id
  context_of-is_context (payload claims) users = ground arith
  context_of-is_context token_revoked users = refl
  context_of-is_context family_revoked users = refl
  context_of-is_context token_expired users = refl
  context_of-is_context (token_invalid m) users = refl

  -- A bearer token gives the context of a user exactly if it is not empty, `decode_and_verify`
  -- accepts what is left of it after "Bearer ", it is of type access, and its subject is the id of
  -- an active user; and the revoked tokens are those after `decode_and_verify`, or before if the
  -- token is empty.
  pub authenticate_token-lets_in :
      (now : ℕ) (token : String) (users : V.U.Db) (s : Tokens V.R)
      → let (verified, s') = decode_and_verify V.R V.jwt now (clean_token token) s in
        (is_context (authenticate_token V now token users s).0
          ≡ (not (token == "") && speaks_for verified users))
        × ((authenticate_token V now token users s).1 ≡ (if token == "" then s else s'))
  unfolding authenticate_token is_context
  authenticate_token-lets_in now token users s =
      let (verified, s') = decode_and_verify V.R V.jwt now (clean_token token) s in
      ground (arith, context_of-is_context verified users)

  -- A session gives the context of a user exactly if its id is not empty, `get_session` finds it,
  -- and its user's id is that of an active user; then the context carries the session's user and
  -- data.
  pub authenticate_session-lets_in :
      (id : String) (users : V.U.Db) (s : Sessions V.S)
      → is_context (authenticate_session V id users s).0 ≡ (
          not (id == "") && elim (get_session V.S id s).0 [
            | none ↦ false
            | some session ↦ is_active_id session.user_id users
          ])
  unfolding authenticate_session context_of_session active_user is_context is_active_id
  authenticate_session-lets_in id users s = ground arith
