-- ===== src/Password/Examples.antt =====
-- Tests of the password hasher, and its theorems at concrete inputs: libraries that know one password.
use auth_n_z.Common.{
  if◌then◌else◌, or_default, lower, String, ◌≡◌, refl, sym, ap, subst, ◌≢◌, ◌⊎◌, true, false, none,
  some, arith, ◌==◌,
}
use auth_n_z.Common.Rows.{ok, raised}
use auth_n_z.Password.Hash.{
  Argon2, PasswordHasher, is_argon2_hash, is_bcrypt_hash, algorithm_or, hash, verify, needs_rehash,
}
use auth_n_z.Password.Verify.{Documented, IsTaken, verify-hash}

abbrev argon : Argon2
argon = record {
  hash = λ salt p. ok "$argon2id$v=19$x";
  verify = λ h p. some tt;
  check_needs_rehash = λ h. some false;
}

-- bcrypt knows the texts "long" and "secret", and raises for the first
abbrev hasher : PasswordHasher
hasher = record {
  default_algorithm = "Argon2id";
  bcrypt_rounds = 12;
  argon2 = some argon;
  bcrypt = record {
    hashpw = λ rounds salt p.
        if p == "long" then raised "password cannot be longer than 72 bytes" else ok "$2b$12$x";
    checkpw = λ p h. some true;
    rounds_of = λ h. some 12;
  };
}

only : (a : Argon2) → hasher.argon2 ≡ some a → argon ≡ a
only a there = ap (λ o. or_default o argon) there

abbrev argon_hash : String
argon_hash = "$argon2id$v=19$x"

abbrev bcrypt_hash : String
bcrypt_hash = "$2b$12$x"

made_by_argon :
    (a : Argon2)
    → hasher.argon2 ≡ some a
    → (salt p h : String) → a.hash salt p ≡ ok h
    → argon_hash ≡ h
made_by_argon a there salt p h made =
    let own = subst (λ b. b.hash salt p ≡ ok h) (sym (only a there)) made in ground arith

made_by_bcrypt : (salt p h : String) → hasher.bcrypt.hashpw 12 salt p ≡ ok h → bcrypt_hash ≡ h
made_by_bcrypt salt p h made = ground arith

documented : Documented hasher
documented = record {
  bcrypt_form = λ salt p h made.
      subst (λ t. (is_bcrypt_hash t ≡ true) × (is_argon2_hash t ≡ false))
        (made_by_bcrypt salt p h made) (refl, refl);
  bcrypt_own = λ salt p h made. refl;
  argon2_form = λ a there salt p h made.
      subst (λ t. is_argon2_hash t ≡ true) (made_by_argon a there salt p h made) refl;
  argon2_own = λ a there salt p h made. subst (λ b. b.verify h p ≡ some tt) (only a there) refl;
}

-- a bcrypt hash is to be made again where Argon2id is the default
migrated : needs_rehash hasher bcrypt_hash none ≡ true
unfolding needs_rehash algorithm_or lower
migrated = refl

by_argon2 : hash hasher "salt" "secret" none ≡ ok argon_hash
unfolding hash algorithm_or lower
by_argon2 = refl

too_long :
    hash hasher "salt" "long" (some "bcrypt") ≡ raised "password cannot be longer than 72 bytes"
unfolding hash algorithm_or lower
too_long = refl

abbrev secret : String
secret = "secret"

verify-hash_example :
    ((h : String) → hash hasher "salt" secret none ≡ ok h → verify hasher secret h ≡ true)
    × ((q h : String) → verify hasher q h ≡ true → (q ≢ "") × IsTaken hasher q h)
    × ((e : String)
        → hash hasher "salt" secret none ≡ raised e
        → (secret ≡ "")
          ⊎ ((hasher.bcrypt.hashpw hasher.bcrypt_rounds "salt" secret ≡ raised e)
              ⊎ ((a : Argon2) × (hasher.argon2 ≡ some a) × (a.hash "salt" secret ≡ raised e))))
verify-hash_example = verify-hash hasher documented "salt" secret none
