-- ===== src/Mfa/Examples.antt =====
-- Tests of the second factor's codes, and their theorems at concrete inputs, where a code is its
-- own digest.
use auth_n_z.Common.{
  if◌then◌else◌, is_some, strip, contains, add, suc, String, ◌≡◌, refl, true, ◌&&◌, List, [], ◌∷◌,
  ◌==◌, without,
}
use auth_n_z.Mfa.Provider.{
  only_digits, hash_backup_code, consume, verify_and_consume_backup_code, generate_backup_codes,
}
use auth_n_z.Mfa.BackupCodes.{count, verify_and_consume_backup_code-count}

abbrev digest : String → String
digest t = t

abbrev codes : List String
codes = "A1" ∷ "B2" ∷ "C3" ∷ []

used : verify_and_consume_backup_code digest " B2 " codes ≡ (true, "A1" ∷ "C3" ∷ [])
unfolding verify_and_consume_backup_code hash_backup_code consume strip
used = refl

grouped : only_digits "123-456 7" ≡ "1234567"
unfolding only_digits without
grouped = refl

-- a code that is drawn twice counts once
drawn_twice : is_some (generate_backup_codes 2 ("X" ∷ "X" ∷ "Y" ∷ []) []) ≡ true
unfolding generate_backup_codes add contains
drawn_twice = refl

verify_and_consume_backup_code-count_example :
    let (valid, remaining) = verify_and_consume_backup_code digest "B2" codes in
    (valid ≡ contains (hash_backup_code digest "B2") codes)
    × ((other : String)
        → count other codes ≡ (
            if valid && hash_backup_code digest "B2" == other
            then suc (count other remaining)
            else count other remaining))
verify_and_consume_backup_code-count_example =
    verify_and_consume_backup_code-count digest "B2" codes
