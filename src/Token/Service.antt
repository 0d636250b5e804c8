-- ===== src/Token/Service.antt =====
-- `TokenService`: the revocation lists in Redis with a fallback in memory, and verification.
use auth_n_z.Common.{
  if◌then◌else◌, is_some, or_default, contains, add, ℕ, ◌-◌, max, String, Bool, true, false, ◌||◌,
  Option, none, some, List, ◌==◌, text_append,
}
use auth_n_z.Common.Redis.{Redis}
use auth_n_z.Common.Jwt.{Claims, Jwt, claims, expired, invalid}
use auth_n_z.Token.Claims.{text_claim, num_claim}

abbrev pub token_key : String → String
token_key id = text_append "revoked_token:" id

abbrev pub family_key : String → String
family_key id = text_append "revoked_family:" id

-- How `decode_and_verify` ends: the payload, or the `ValueError` that it raises.
pub data Verified : Type 0 where
  payload : Claims → Verified
  token_revoked family_revoked token_expired : Verified
  token_invalid : String → Verified

-- the message of the error
abbrev pub message : Verified → String
message (payload c) = ""
message token_revoked = "Token has been revoked"
message family_revoked = "Token family has been revoked due to security violation"
message token_expired = "Token has expired"
message (token_invalid e) = text_append "Invalid token: " e

module _ (R : Redis) where
  -- `none` is a service without Redis
  pub record Tokens : Type 0 where
    pub redis : Option R.Db
    pub blocklist : List String
    pub revoked_families : List String

  -- `self.r.exists(key)`; `none` if there is no Redis or the call raised
  unfoldable pub ask : String → Tokens → Option Bool × Tokens
  ask key s = elim s.redis [
    | none ↦ (none, s)
    | some db ↦ let (answer, db') = R.exists key db in (answer, record s { redis = some db' })
  ]

  -- `self.r.set(key, "1", ex=ttl)`; false if there is no Redis or the call raised
  unfoldable pub mark : String → ℕ → Tokens → Bool × Tokens
  mark key ttl s = elim s.redis [
    | none ↦ (false, s)
    | some db ↦
        let (done, db') = R.set key "1" ttl db in (is_some done, record s { redis = some db' })
  ]

  -- the part of `is_token_revoked` that looks for one identifier: in Redis, then in memory
  unfoldable pub listed : String → Tokens → Bool × Tokens
  unfolding ask
  listed id s =
      let (answer, s') = ask (token_key id) s in
      (or_default answer false || contains id s'.blocklist, s')

  -- `revoke_family`
  unfoldable pub revoke_family : String → ℕ → Tokens → Bool × Tokens
  unfolding mark
  revoke_family id lifetime s =
      let (done, s') = mark (family_key id) lifetime s in
      (true, if done then s' else record s' { revoked_families = add id s'.revoked_families })

  -- `is_family_revoked`: memory is read only where Redis gives no answer
  unfoldable pub is_family_revoked : String → Tokens → Bool × Tokens
  unfolding ask
  is_family_revoked id s =
      let (answer, s') = ask (family_key id) s in
      (or_default answer (contains id s'.revoked_families), s')

  -- the two `set` calls of `revoke_token`; false as soon as one raises
  unfoldable pub mark_both : String → String → ℕ → Tokens → Bool × Tokens
  unfolding mark
  mark_both jti id ttl s =
      let (first, s') = mark (token_key jti) ttl s in
      if first then (if jti == id then (true, s') else mark (token_key id) ttl s') else (false, s')

  module _ (J : Jwt) where
    -- the token's own `jti`, if the identifier is a token that has one
    unfoldable pub jti_of : String → Option String
    jti_of id = elim (J.unverified id) [ none ↦ none | some c ↦ text_claim "jti" c ]

    -- the `exp` that `revoke_token` reads along with the `jti`
    unfoldable pub exp_of : String → Option ℕ
    exp_of id = elim (J.unverified id) [
      | none ↦ none
      | some c ↦ if is_some (text_claim "jti" c) then num_claim "exp" c else none
    ]

    abbrev pub seconds_left : ℕ → Option ℕ → Option ℕ → ℕ
    seconds_left now (some at) own = max 1 (at - now)
    seconds_left now none (some at) = max 1 (at - now)
    seconds_left now none none = 604800

    -- `revoke_token`
    unfoldable pub revoke_token : ℕ → String → Option ℕ → Tokens → Bool × Tokens
    unfolding mark_both
    revoke_token now id expires_at s =
        let jti = or_default (jti_of id) id in
        let ttl = seconds_left now expires_at (exp_of id) in
        let (done, s') = mark_both jti id ttl s in
        (true, if done then s' else record s' { blocklist = add id (add jti s'.blocklist) })

    -- `is_token_revoked`
    unfoldable pub is_token_revoked : String → Tokens → Bool × Tokens
    is_token_revoked id s =
        let (found, s') = listed id s in
        if found
        then (true, s')
        else elim (jti_of id) [ none ↦ (false, s') | some jti ↦ listed jti s' ]

    -- the family check, for a payload whose `jti` is not revoked
    after_family : Claims → Bool × Tokens → Verified × Tokens
    after_family c (stolen, s) = (if stolen then family_revoked else payload c, s)

    check_family : Claims → String → Tokens → Verified × Tokens
    unfolding after_family
    check_family c fid s =
        if fid == "" then (payload c, s) else after_family c (is_family_revoked fid s)

    after_jti : Claims → Bool × Tokens → Verified × Tokens
    unfolding check_family
    after_jti c (revoked, s) =
        if revoked
        then (token_revoked, s)
        else check_family c (or_default (text_claim "family_id" c) "") s

    -- the checks on a payload whose signature and expiry are good
    unfoldable pub check_payload : Claims → Tokens → Verified × Tokens
    unfolding after_jti
    check_payload c s = after_jti c (is_token_revoked (or_default (text_claim "jti" c) "") s)

    after_token : ℕ → String → Bool × Tokens → Verified × Tokens
    after_token now token (revoked, s) =
        if revoked then (token_revoked, s) else elim (J.decode now token) [
          | claims c ↦ check_payload c s
          | expired ↦ (token_expired, s)
          | invalid e ↦ (token_invalid e, s)
        ]

    -- `decode_and_verify`
    unfoldable pub decode_and_verify : ℕ → String → Tokens → Verified × Tokens
    unfolding after_token
    decode_and_verify now token s = after_token now token (is_token_revoked token s)
