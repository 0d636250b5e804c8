-- ===== src/Password/Hash.antt =====
-- `PasswordHasher`. argon2-cffi and bcrypt are parameters, and any call of theirs may raise; a hasher
-- without Argon2 is one where the package is not installed. The salts are arguments.
use auth_n_z.Common.{
  ltb, if◌then◌else◌, is_some, or_default, lower, ℕ, String, Bool, true, false, not, ◌||◌, Option,
  none, some, ◌==◌, starts_with, text_or,
}
use auth_n_z.Common.Rows.{Reply, raised}

pub record Argon2 : Type 0 where
  -- `hash(password)`, with the salt
  pub hash : String → String → Reply String
  -- `verify(hash, password)`, which raises on a mismatch
  pub verify : String → String → Option (Unit {0})
  pub check_needs_rehash : String → Option Bool

pub record Bcrypt : Type 0 where
  -- `hashpw(password, gensalt(rounds))`, on the password's bytes: a password of more than 72 bytes is
  -- an error from bcrypt 5 on
  pub hashpw : ℕ → String → String → Reply String
  -- `none` where it raised
  pub checkpw : String → String → Option Bool
  -- `int(hash.split("$")[2])` of a text with at least four parts; `none` where that fails
  pub rounds_of : String → Option ℕ

pub record PasswordHasher : Type 0 where
  pub default_algorithm : String
  pub bcrypt_rounds : ℕ
  pub argon2 : Option Argon2
  pub bcrypt : Bcrypt

abbrev pub is_argon2_hash : String → Bool
is_argon2_hash h = starts_with h "$argon2"

abbrev pub is_bcrypt_hash : String → Bool
is_bcrypt_hash h = starts_with h "$2b$" || starts_with h "$2a$" || starts_with h "$2y$"

-- `(algorithm or self.default_algorithm).lower()`
unfoldable pub algorithm_or : Option String → PasswordHasher → String
algorithm_or algorithm H = lower (text_or algorithm H.default_algorithm)

abbrev pub is_argon2 : String → Bool
is_argon2 algo = algo == "argon2id" || algo == "argon2"

-- `hash`; an error of the libraries is handed on
unfoldable pub hash : PasswordHasher → (salt plain_password : String) → Option String → Reply String
hash H salt plain_password algorithm =
    let by_bcrypt = H.bcrypt.hashpw H.bcrypt_rounds salt plain_password in
    if plain_password == ""
    then raised "Password cannot be empty"
    else if is_argon2 (algorithm_or algorithm H)
    then elim H.argon2 [ none ↦ by_bcrypt | some a ↦ a.hash salt plain_password ]
    else by_bcrypt

-- `verify`
unfoldable pub verify : PasswordHasher → String → String → Bool
verify H plain_password hashed_password =
    if plain_password == "" || hashed_password == ""
    then false
    else if is_argon2_hash hashed_password
    then elim H.argon2 [ none ↦ false | some a ↦ is_some (a.verify hashed_password plain_password) ]
    else if is_bcrypt_hash hashed_password
    then or_default (H.bcrypt.checkpw plain_password hashed_password) false
    else false

-- `needs_rehash`
unfoldable pub needs_rehash : PasswordHasher → String → Option String → Bool
needs_rehash H hashed_password target_algorithm =
    let target_algo = algorithm_or target_algorithm H in
    if hashed_password == ""
    then true
    else if is_argon2 target_algo
    then (if not (is_argon2_hash hashed_password) then true else elim H.argon2 [
      | none ↦ false
      | some a ↦ or_default (a.check_needs_rehash hashed_password) true
    ])
    else if target_algo == "bcrypt"
    then (if not (is_bcrypt_hash hashed_password)
        then true
        else elim (H.bcrypt.rounds_of hashed_password) [
          | none ↦ true
          | some r ↦ ltb r H.bcrypt_rounds
        ])
    else false
