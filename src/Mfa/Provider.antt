-- ===== src/Mfa/Provider.antt =====
-- `MFAProvider`. SHA-256, `quote` and pyotp's `TOTP(secret).verify` at a time are parameters; `none`
-- is a call of pyotp that raised.
use auth_n_z.Common.{
  leb, if◌then◌else◌, or_default, length, strip, add, ℕ, String, Bool, true, false, Option, none,
  some, List, [], ◌∷◌, ◌==◌, without, concat,
}

-- `s.replace(" ", "").replace("-", "")`
unfoldable pub only_digits : String → String
only_digits s = without "-" (without " " s)

-- `get_provisioning_uri`
unfoldable pub get_provisioning_uri : (String → String) → String → String → String → String
get_provisioning_uri quote secret account_name issuer =
    let escaped_issuer = quote (if issuer == "" then "Auth N&Z" else issuer) in
    let escaped_account = quote (if account_name == "" then "user" else account_name) in
    concat (
      "otpauth://totp/" ∷ escaped_issuer ∷ ":" ∷ escaped_account ∷ "?secret=" ∷ secret ∷ "&issuer="
      ∷ escaped_issuer ∷ "&algorithm=SHA1&digits=6&period=30" ∷ [])

-- `verify_totp_code`
unfoldable pub verify_totp_code :
    (ℕ → String → String → ℕ → Option Bool) → ℕ → String → String → ℕ → Bool
unfolding only_digits
verify_totp_code totp now secret code tolerance_steps =
    or_default (totp now secret (only_digits (strip code)) tolerance_steps) false

-- `_hash_backup_code`
unfoldable pub hash_backup_code : (String → String) → String → String
hash_backup_code sha256 code = sha256 (strip code)

-- the loop of `verify_and_consume_backup_code`: `pop` of the first code with the digest
unfoldable pub consume : String → List String → Bool × List String
consume digest [] = (false, [])
consume digest (stored ∷ codes) =
    let (found, rest) = consume digest codes in
    if digest == stored then (true, codes) else (found, stored ∷ rest)

-- `verify_and_consume_backup_code`
unfoldable pub verify_and_consume_backup_code :
    (String → String) → String → List String → Bool × List String
verify_and_consume_backup_code sha256 provided_code stored_hashed_codes =
    consume (hash_backup_code sha256 provided_code) stored_hashed_codes

-- The loop of `generate_backup_codes`, over the codes that the random generator gives in turn; it
-- ends with `none` only where they are used up.
unfoldable pub generate_backup_codes : ℕ → List String → List String → Option (List String)
generate_backup_codes count [] codes = if leb count (length codes) then some codes else none
generate_backup_codes count (code ∷ drawn) codes =
    let rest = generate_backup_codes count drawn (add code codes) in
    if leb count (length codes) then some codes else rest
