-- ===== src/Token/Mint.antt =====
-- The claims that a minted token carries.
use auth_n_z.Common.{
  if◌then◌else◌, Bool-cases, is_some, lookup, insert, lookup-insert, ℕ, ◌+◌, String, ◌≡◌, ◌∙◌, inl,
  inr, Option, none, some, [], ◌∷◌, arith, eq_iff, text_or,
}
use auth_n_z.Common.Jwt.{Claims, text, num}
use auth_n_z.Token.Claims.{merge, access_base, access_payload, refresh_base, refresh_payload}

pub lookup-merge :
    (k : String) (extra payload : Claims)
    → lookup k (merge extra payload)
      ≡ (if is_some (lookup k payload) then lookup k payload else lookup k extra)
unfolding merge lookup
lookup-merge k [] payload = ground arith
lookup-merge k ((j, v) ∷ rest) payload = elim (Bool-cases (is_some (lookup j payload))) [
  | inl old ↦ rw old (lookup-merge k rest payload ∙ ground (arith, eq_iff j k))
  | inr new ↦ rw new (
      lookup-merge k rest (insert j v payload)
      ∙ ground (arith, lookup-insert j k v payload, eq_iff j k))
]

-- The claims that a caller adds to an access token never replace the standard ones, and every
-- other claim of the token is the caller's.
pub access_payload_claims :
    (now lifetime : ℕ) (jti subject_id : String) (extra : Claims)
    → let c = access_payload now lifetime jti subject_id extra in
      (lookup "sub" c ≡ some (text subject_id))
      × (lookup "iat" c ≡ some (num now))
      × (lookup "exp" c ≡ some (num (now + lifetime)))
      × (lookup "jti" c ≡ some (text jti))
      × (lookup "type" c ≡ some (text "access"))
      × ((k : String)
          → lookup k (access_base now lifetime jti subject_id) ≡ none
          → lookup k c ≡ lookup k extra)
unfolding access_payload lookup
access_payload_claims now lifetime jti subject_id extra =
    let base = access_base now lifetime jti subject_id in
    (
      lookup-merge "sub" extra base,
      lookup-merge "iat" extra base,
      lookup-merge "exp" extra base,
      lookup-merge "jti" extra base,
      lookup-merge "type" extra base,
      λ k free. lookup-merge k extra base ∙ rw free,
    )

-- A refresh token belongs to the family that was asked for, or to a new one if none was, and a
-- caller's claims change neither this nor the type of the token.
pub refresh_payload_family :
    (now lifetime : ℕ) (jti fresh subject_id : String) (family_id : Option String) (extra : Claims)
    → let c = refresh_payload now lifetime jti fresh subject_id family_id extra in
      (lookup "family_id" c ≡ some (text (text_or family_id fresh)))
      × (lookup "type" c ≡ some (text "refresh"))
      × (lookup "jti" c ≡ some (text jti))
      × (lookup "sub" c ≡ some (text subject_id))
      × (lookup "exp" c ≡ some (num (now + lifetime)))
unfolding refresh_payload lookup
refresh_payload_family now lifetime jti fresh subject_id family_id extra =
    let base = refresh_base now lifetime jti fresh subject_id family_id in
    (
      lookup-merge "family_id" extra base,
      lookup-merge "type" extra base,
      lookup-merge "jti" extra base,
      lookup-merge "sub" extra base,
      lookup-merge "exp" extra base,
    )
