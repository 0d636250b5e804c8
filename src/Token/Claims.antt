-- ===== src/Token/Claims.antt =====
-- The payloads of `create_access_token` and `create_refresh_token`.
use auth_n_z.Common.{
  if◌then◌else◌, is_some, lookup, insert, ℕ, ◌+◌, String, Option, none, some, [], ◌∷◌, text_or,
}
use auth_n_z.Common.Jwt.{Claim, Claims, Jwt, text, num}

-- `for k, v in claims.items(): if k not in payload: payload[k] = v`
unfoldable pub merge : Claims → Claims → Claims
merge [] payload = payload
merge ((k, v) ∷ rest) payload =
    merge rest (if is_some (lookup k payload) then payload else insert k v payload)

abbrev pub access_base : (now lifetime : ℕ) (jti subject_id : String) → Claims
access_base now lifetime jti subject_id =
    ("sub", text subject_id)
    ∷ ("iat", num now)
    ∷ ("exp", num (now + lifetime))
    ∷ ("jti", text jti)
    ∷ ("type", text "access")
    ∷ []

unfoldable pub access_payload : (now lifetime : ℕ) (jti subject_id : String) → Claims → Claims
access_payload now lifetime jti subject_id extra =
    merge extra (access_base now lifetime jti subject_id)

-- the claims of a refresh token; an empty or missing `family_id` is replaced by a new identifier
abbrev pub refresh_base :
    (now lifetime : ℕ) (jti fresh subject_id : String) → Option String → Claims
refresh_base now lifetime jti fresh subject_id family_id =
    let fid = text_or family_id fresh in
    ("sub", text subject_id)
    ∷ ("iat", num now)
    ∷ ("exp", num (now + lifetime))
    ∷ ("jti", text jti)
    ∷ ("family_id", text fid)
    ∷ ("type", text "refresh")
    ∷ []

unfoldable pub refresh_payload :
    (now lifetime : ℕ) (jti fresh subject_id : String) → Option String → Claims → Claims
refresh_payload now lifetime jti fresh subject_id family_id extra =
    merge extra (refresh_base now lifetime jti fresh subject_id family_id)

module _ (J : Jwt) where
  -- `create_access_token`
  unfoldable pub create_access_token :
      (now lifetime : ℕ) (jti subject_id : String) → Claims → String
  create_access_token now lifetime jti subject_id extra =
      J.encode (access_payload now lifetime jti subject_id extra)

  -- `create_refresh_token`
  unfoldable pub create_refresh_token :
      (now lifetime : ℕ) (jti fresh subject_id : String) → Option String → Claims → String
  create_refresh_token now lifetime jti fresh subject_id family_id extra =
      J.encode (refresh_payload now lifetime jti fresh subject_id family_id extra)

-- `payload.get(k)` where a text is wanted; the program's tokens hold texts there
abbrev pub as_text : Option Claim → Option String
as_text (some (text s)) = some s
as_text _ = none

abbrev pub text_claim : String → Claims → Option String
text_claim k c = as_text (lookup k c)

abbrev pub as_num : Option Claim → Option ℕ
as_num (some (num n)) = some n
as_num _ = none

abbrev pub num_claim : String → Claims → Option ℕ
num_claim k c = as_num (lookup k c)
