-- ===== src/Router/Granted.antt =====
-- When a refresh token is exchanged for new tokens.
use auth_n_z.Common.{
  if◌then◌else◌, Bool-cases, or_default, Option-cases, strip_quotes, ℕ, String, ◌≡◌, refl, ◌≢◌, inl,
  inr, Bool, true, false, not, ◌&&◌, Option, none, some, arith, ◌==◌, eq_iff, text_or,
}
use auth_n_z.Common.Jwt.{Claims, Decoded, claims, expired, invalid}
use auth_n_z.Token.Service.{Tokens, is_family_revoked}
use auth_n_z.Token.Revocation.{on_list, is_revoked_in_memory}
use auth_n_z.Token.Verify.{family_listed}
use auth_n_z.Auth.Login.{Services}
use auth_n_z.Router.Refresh.{
  Answer, rotated, rejected, passed, refused, Draw, Lifetimes, not_refresh_detail, family_detail,
  reuse_detail, claim_of, App, end_family, family_test, jti_test, check_claims, check_decoded,
  check_refresh, user_of, rotate, rotate_checked, refresh_tokens,
}

abbrev pub is_rotated : Answer → Bool
is_rotated (rotated access refresh user) = true
is_rotated (rejected detail) = false

-- the token that the request uses
abbrev pub shown : (body cookie : Option String) → String
shown body cookie = text_or body (or_default cookie "")

module _ (V : Services) where
  -- the token was used or revoked before
  abbrev pub is_used : Claims → Tokens V.R → Bool
  is_used c s = not (claim_of "jti" c == "") && on_list V.R V.jwt (claim_of "jti" c) s.blocklist

  family_in_memory :
      (c : Claims) (s : Tokens V.R)
      → s.redis ≡ none
      → family_test V c s ≡ (family_listed V.R V.jwt c s, s)
  unfolding family_test is_family_revoked
  family_in_memory c s off = ground arith

  jti_in_memory : (c : Claims) (s : Tokens V.R) → s.redis ≡ none → jti_test V c s ≡ (is_used c s, s)
  unfolding jti_test
  jti_in_memory c s off = ground (arith, is_revoked_in_memory V.R V.jwt (claim_of "jti" c) s off)

  -- the checks without Redis
  pub checked_in_memory :
      (c : Claims) (s : App V)
      → s.tokens.redis ≡ none
      → check_claims V c s ≡ (
          if not (claim_of "type" c == "refresh")
          then (refused not_refresh_detail, s)
          else if family_listed V.R V.jwt c s.tokens
          then (refused family_detail, s)
          else if is_used c s.tokens
          then (refused reuse_detail, end_family V c s)
          else (passed c, s))
  unfolding check_claims
  checked_in_memory c s off =
      rw (check_claims, family_in_memory c s.tokens off) (rw (jti_in_memory c s.tokens off) refl)

  -- the payload is that of a refresh token that was not used or revoked, of an active user
  abbrev pub is_good : Claims → V.U.Db → Tokens V.R → Bool
  is_good c users s =
      claim_of "type" c == "refresh"
      && not (family_listed V.R V.jwt c s)
      && not (is_used c s)
      && elim (user_of V c users) [ none ↦ false | some user ↦ user.is_active ]

  abbrev pub is_good_decoded : Decoded → V.U.Db → Tokens V.R → Bool
  is_good_decoded (claims c) users s = is_good c users s
  is_good_decoded expired users s = false
  is_good_decoded (invalid e) users s = false

  -- a token is shown, and decodes at the time to a good payload
  abbrev pub may_rotate : (now : ℕ) (token : String) → V.U.Db → Tokens V.R → Bool
  may_rotate now token users s =
      not (token == "") && is_good_decoded (V.jwt.decode now (strip_quotes token)) users s

  pub rotate_answers :
      (now : ℕ) (lifetimes : Lifetimes) (draw : Draw) (c : Claims) (users : V.U.Db) (s : App V)
      → is_rotated (rotate V now lifetimes draw c users s).0
        ≡ elim (user_of V c users) [ none ↦ false | some user ↦ user.is_active ]
  unfolding rotate
  rotate_answers now lifetimes draw c users s = elim (Option-cases (user_of V c users)) [
    | inl missing ↦ ground arith
    | inr (user, there) ↦ ground arith
  ]

  pub checked_answers :
      (now : ℕ) (lifetimes : Lifetimes) (draw : Draw) (c : Claims) (users : V.U.Db) (s : App V)
      → s.tokens.redis ≡ none
      → is_rotated (rotate_checked V now lifetimes draw users (check_claims V c s)).0
        ≡ is_good c users s.tokens
  unfolding rotate_checked
  checked_answers now lifetimes draw c users s off =
      rw (checked_in_memory c s off) (ground (arith, rotate_answers now lifetimes draw c users s))

  decoded_answers :
      (now : ℕ) (lifetimes : Lifetimes) (draw : Draw) (d : Decoded) (users : V.U.Db) (s : App V)
      → s.tokens.redis ≡ none
      → is_rotated (rotate_checked V now lifetimes draw users (check_decoded V d s)).0
        ≡ is_good_decoded d users s.tokens
  unfolding check_decoded rotate_checked
  decoded_answers now lifetimes draw (claims c) users s off =
      checked_answers now lifetimes draw c users s off
  decoded_answers now lifetimes draw expired users s off = refl
  decoded_answers now lifetimes draw (invalid e) users s off = refl

  -- Without Redis, a request for new tokens is granted exactly if a token is shown, in the body or
  -- else in the cookie, that decodes at that time to the payload of a refresh token whose family, if
  -- it names one, is not revoked, whose own identifier, if it has one, is not, and whose user is
  -- there and active.
  pub refresh_tokens-may_rotate :
      (now : ℕ) (lifetimes : Lifetimes) (draw : Draw) (body cookie : Option String) (users : V.U.Db)
      (s : App V)
      → s.tokens.redis ≡ none
      → is_rotated (refresh_tokens V now lifetimes draw body cookie users s).0
        ≡ may_rotate now (shown body cookie) users s.tokens
  unfolding refresh_tokens check_refresh rotate_checked
  refresh_tokens-may_rotate now lifetimes draw body cookie users s off =
      let d = V.jwt.decode now (strip_quotes (shown body cookie)) in
      let given = decoded_answers now lifetimes draw d users s off in
      elim (Bool-cases (shown body cookie == "")) [
        | inl empty ↦ rw (refresh_tokens, empty) refl
        | inr filled ↦ rw (refresh_tokens, filled) given
      ]

  -- the shown token decodes to these claims
  abbrev pub Shows : (now : ℕ) (token : String) → Claims → Type 0
  Shows now token c = (token ≢ "") × (V.jwt.decode now (strip_quotes token) ≡ claims c)

  pub checked_as :
      (now : ℕ) (token : String) (c : Claims) (s : App V)
      → Shows now token c
      → check_refresh V now token s ≡ check_claims V c s
  unfolding check_refresh check_decoded
  checked_as now token c s (filled, decoded) =
      let given : (token == "") ≡ false = ground (arith, eq_iff token "") in
      rw (check_refresh, given, decoded) refl
