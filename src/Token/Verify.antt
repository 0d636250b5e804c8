-- ===== src/Token/Verify.antt =====
-- What `decode_and_verify` accepts.
use auth_n_z.Common.{
  if◌then◌else◌, or_default, lookup, contains, ℕ, ◌+◌, ◌≤◌, ◌<◌, String, ◌≡◌, refl, ap, ◌∙◌, ◌↔◌,
  Bool, false, not, ◌&&◌, none, some, arith, ◌==◌,
}
use auth_n_z.Common.Redis.{Redis}
use auth_n_z.Common.Jwt.{num, Claims, Jwt, Decoded, claims, expired, invalid, num}
use auth_n_z.Token.Claims.{merge, access_base, access_payload, create_access_token, text_claim}
use auth_n_z.Token.Mint.{lookup-merge}
use auth_n_z.Token.Service.{
  Tokens, Verified, payload, token_revoked, family_revoked, token_expired, token_invalid,
  is_family_revoked, check_payload, decode_and_verify,
}
use auth_n_z.Token.Revocation.{on_list, is_revoked_in_memory}

module _ (R : Redis) (J : Jwt) where
  -- the family of the payload, if it names one, is revoked
  abbrev pub family_listed : Claims → Tokens R → Bool
  family_listed c s =
      let fid = or_default (text_claim "family_id" c) "" in
      not (fid == "") && contains fid s.revoked_families

  abbrev pub jti_in : Claims → String
  jti_in c = or_default (text_claim "jti" c) ""

  family_in_memory :
      (fid : String) (s : Tokens R)
      → s.redis ≡ none
      → is_family_revoked R fid s ≡ (contains fid s.revoked_families, s)
  unfolding is_family_revoked
  family_in_memory fid s off = ground arith

  check_in_memory :
      (c : Claims) (s : Tokens R)
      → s.redis ≡ none
      → check_payload R J c s ≡ (
        if on_list R J (jti_in c) s.blocklist
            then token_revoked
            else if family_listed c s
            then family_revoked
            else payload c,
        s,
      )
  unfolding check_payload
  check_in_memory c s off =
      rw (is_revoked_in_memory R J (jti_in c) s off)
        (rw (family_in_memory (or_default (text_claim "family_id" c) "") s off) (ground arith))

  -- what is decided about a token that decodes to `d`
  abbrev verdict : String → Decoded → Tokens R → Verified
  verdict token d s = if on_list R J token s.blocklist then token_revoked else elim d [
    | claims c ↦
        if on_list R J (jti_in c) s.blocklist
        then token_revoked
        else if family_listed c s
        then family_revoked
        else payload c
    | expired ↦ token_expired
    | invalid e ↦ token_invalid e
  ]

  decode_in_memory :
      (now : ℕ) (token : String) (d : Decoded) (s : Tokens R)
      → s.redis ≡ none
      → J.decode now token ≡ d
      → decode_and_verify R J now token s ≡ (verdict token d s, s)
  unfolding decode_and_verify
  decode_in_memory now token (claims c) s off h = rw (is_revoked_in_memory R J token s off) (
      rw h
        (rw (is_revoked_in_memory R J token s off) (rw (check_in_memory c s off) (ground arith))))
  decode_in_memory now token expired s off h =
      rw (is_revoked_in_memory R J token s off)
        (rw h (rw (is_revoked_in_memory R J token s off) (ground arith)))
  decode_in_memory now token (invalid e) s off h =
      rw (is_revoked_in_memory R J token s off)
        (rw h (rw (is_revoked_in_memory R J token s off) (ground arith)))

  verdict_sound :
      (token : String) (d : Decoded) (s : Tokens R) (c : Claims)
      → verdict token d s ≡ payload c
      → (on_list R J token s.blocklist ≡ false)
        × (d ≡ claims c)
        × (on_list R J (jti_in c) s.blocklist ≡ false)
        × (family_listed c s ≡ false)
  verdict_sound token (claims c') s c h =
      let same : c' ≡ c = ground arith in
      (ground arith, ap claims same, rw (← same) (ground arith), rw (← same) (ground arith))
  verdict_sound token expired s c h = ground arith
  verdict_sound token (invalid e) s c h = ground arith

  -- Without Redis a token is accepted exactly if neither it nor its `jti` is revoked, it decodes at
  -- that time, and its family, if it names one, is not revoked; and verifying changes nothing.
  pub decode_and_verify_iff :
      (now : ℕ) (token : String) (s : Tokens R) (c : Claims)
      → s.redis ≡ none
      → (((decode_and_verify R J now token s).0 ≡ payload c) ↔ (
          (on_list R J token s.blocklist ≡ false)
          × (J.decode now token ≡ claims c)
          × (on_list R J (jti_in c) s.blocklist ≡ false)
          × (family_listed c s ≡ false)))
        × ((decode_and_verify R J now token s).1 ≡ s)
  decode_and_verify_iff now token s c off =
      let decided = decode_in_memory now token (J.decode now token) s off refl in
      (
        (
          λ h. verdict_sound token (J.decode now token) s c (rw decided at h),
          λ (a, b, d, f). rw decided (rw (a, b, d, f)),
        ),
        rw decided,
      )

  -- PyJWT decodes these claims from their token from the time of their `iat` until they expire.
  abbrev pub DecodesOwn : Claims → Type 0
  DecodesOwn c =
      (now iat exp : ℕ)
      → lookup "iat" c ≡ some (num iat)
      → lookup "exp" c ≡ some (num exp)
      → iat ≤ now
      → now < exp
      → J.decode now (J.encode c) ≡ claims c

  -- If PyJWT decodes the claims of the token from their `iat` until they expire, then without Redis
  -- an access token without a family claim is accepted, with the claims it was minted with, at any
  -- time from its minting on before its lifetime is over, as long as neither it nor its `jti` is
  -- revoked.
  pub access_token_roundtrip :
      (now later lifetime : ℕ) (jti subject_id : String) (extra : Claims) (s : Tokens R)
      → DecodesOwn (access_payload now lifetime jti subject_id extra)
      → s.redis ≡ none
      → now ≤ later
      → later < now + lifetime
      → lookup "family_id" extra ≡ none
      → on_list R J (create_access_token J now lifetime jti subject_id extra) s.blocklist ≡ false
      → on_list R J jti s.blocklist ≡ false
      → (decode_and_verify R J later (create_access_token J now lifetime jti subject_id extra) s).0
        ≡ payload (access_payload now lifetime jti subject_id extra)
  unfolding create_access_token access_payload lookup
  access_token_roundtrip now later lifetime jti subject_id extra s own off minted time free a b =
      let base = access_base now lifetime jti subject_id in
      let c = merge extra base in
      let at_iat = lookup-merge "iat" extra base in
      let at_exp = lookup-merge "exp" extra base in
      let at_jti = lookup-merge "jti" extra base in
      let at_family : lookup "family_id" c ≡ none = lookup-merge "family_id" extra base ∙ free in
      (decode_and_verify_iff later (J.encode c) s c off).0.1
        (a, own later now (now + lifetime) at_iat at_exp minted time, rw at_jti b, rw at_family)
