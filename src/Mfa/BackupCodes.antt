-- ===== src/Mfa/BackupCodes.antt =====
-- Backup codes are used once.
use auth_n_z.Common.{
  ltb, if◌then◌else◌, contains, ℕ, suc, String, ◌≡◌, refl, true, false, ◌&&◌, List, [], ◌∷◌, arith,
  ◌==◌, eq_iff, eq_refl,
}
use auth_n_z.Mfa.Provider.{hash_backup_code, consume, verify_and_consume_backup_code}

-- how often a text is in a list
unfoldable pub count : String → List String → ℕ
count x [] = 0
count x (y ∷ ys) = let rest = count x ys in if y == x then suc rest else rest

consume-count :
    (digest : String) (codes : List String)
    → let (found, rest) = consume digest codes in
      (found ≡ contains digest codes)
      × ((other : String)
          → count other codes
            ≡ (if found && digest == other then suc (count other rest) else count other rest))
unfolding consume contains count
consume-count digest [] = (refl, λ other. ground arith)
consume-count digest (code ∷ codes) =
    let (found, counted) = consume-count digest codes in
    (
      ground (arith, eq_iff digest code, eq_iff code digest),
      λ other.
          ground (arith, counted other, eq_iff digest code, eq_iff digest other, eq_iff code other),
    )

-- A backup code is accepted exactly if its digest is among the stored ones; then exactly one
-- occurrence of that digest is gone, and if it is not accepted, none.
pub verify_and_consume_backup_code-count :
    (sha256 : String → String) (code : String) (stored : List String)
    → let (valid, remaining) = verify_and_consume_backup_code sha256 code stored in
      let digest = hash_backup_code sha256 code in
      (valid ≡ contains digest stored)
      × ((other : String)
          → count other stored ≡ (
              if valid && digest == other
              then suc (count other remaining)
              else count other remaining))
unfolding verify_and_consume_backup_code
verify_and_consume_backup_code-count sha256 code stored =
    consume-count (hash_backup_code sha256 code) stored

contains-count : (x : String) (xs : List String) → contains x xs ≡ ltb 0 (count x xs)
unfolding contains count
contains-count x [] = ground arith
contains-count x (y ∷ ys) = ground (arith, contains-count x ys)

-- If the digest of a backup code is stored once, the code is accepted, and refused the next time.
pub verify_and_consume_backup_code_once :
    (sha256 : String → String) (code : String) (stored : List String)
    → count (hash_backup_code sha256 code) stored ≡ 1
    → let (valid, remaining) = verify_and_consume_backup_code sha256 code stored in
      (valid ≡ true) × ((verify_and_consume_backup_code sha256 code remaining).0 ≡ false)
verify_and_consume_backup_code_once sha256 code stored once =
    let digest = hash_backup_code sha256 code in
    let (valid, remaining) = verify_and_consume_backup_code sha256 code stored in
    let (first, counted) = verify_and_consume_backup_code-count sha256 code stored in
    let (second, counted') = verify_and_consume_backup_code-count sha256 code remaining in
    ground (
      arith,
      counted digest,
      contains-count digest stored,
      contains-count digest remaining,
      eq_refl digest,
    )
