-- ===== src/Auth/Examples.antt =====
-- Tests of the authenticator, and its theorems at concrete inputs: one user, Ann, whose password is
-- its own hash and whose code is always "123456".
use auth_n_z.Common.{
  ltb, leb, if◌then◌else◌, or_default, length, lookup, ℕ, ◌+◌, ◌<◌, String, ◌≡◌, refl, true, false,
  none, some, List, [], ◌∷◌, arith, ◌==◌,
}
use auth_n_z.Common.Samples.{memory_redis}
use auth_n_z.Common.Jwt.{claims, invalid, text}
use auth_n_z.Identity.{User}
use auth_n_z.Token.Service.{Tokens}
use auth_n_z.Session.Store.{SessionRedis}
use auth_n_z.Auth.State.{Auth, Challenge}
use auth_n_z.Auth.Lockout.{check_account_lockout, record_failed_attempt}
use auth_n_z.Auth.Locked.{
  check_account_lockout-record_failed_attempt, fail_at, record_failed_attempt-fail_at,
}
use auth_n_z.Auth.Challenges.{get_mfa_challenge}
use auth_n_z.Auth.Login.{Services, UserRepo, World, Fresh, failed, authenticate_credentials}
use auth_n_z.Auth.Complete.{complete_mfa_challenge}
use auth_n_z.Auth.Accepted.{is_success, lets_in, authenticate_credentials-lets_in}
use auth_n_z.Auth.SecondFactor.{passes, complete_mfa_challenge-passes}

abbrev ann : User
ann = record {
  id = "u1";
  username = "ann";
  email = "ann@example.org";
  hashed_password = "secret";
  is_active = true;
  roles = "user" ∷ [];
  metadata = record {
    mfa_enabled = true;
    mfa_secret = "JBSW";
    backup_codes = "A1" ∷ [];
    clearance = none;
    department = none;
  };
}

abbrev no_sessions : SessionRedis
no_sessions = record {
  Db = Unit {0};
  hset = λ k v d. (none, d);
  hset_data = λ k v d. (none, d);
  hgetall = λ k d. (some none, d);
  expire = λ k t d. (some false, d);
  sadd = λ k v d. (some tt, d);
  srem = λ k v d. (some tt, d);
  smembers = λ k d. (some [], d);
  delete = λ ks d. (some 0, d);
}

abbrev users : UserRepo
users = record {
  Db = User;
  get_by_id = λ id u. if id == "u1" then some u else none;
  get_by_identifier = λ name u. if name == "ann" then some u else none;
  set_password = λ id hash u. record u { hashed_password = hash };
  set_metadata = λ id data' u. record u { metadata = data' };
}

abbrev services : Services
services = record {
  R = memory_redis;
  S = no_sessions;
  U = users;
  hasher = record { verify = λ p h. p == h; needs_rehash = λ h. false; hash = λ p. p };
  jwt = record {
    encode = λ c. "t1";
    decode = λ now t.
        if t == "t1"
        then claims (("sub", text "u1") ∷ ("type", text "access") ∷ ("jti", text "j1") ∷ [])
        else invalid "Not enough segments";
    unverified = λ t. none;
  };
  json = record { dumps = λ c. ""; loads = λ t. none };
  uuid = some;
  sha256 = λ t. t;
  totp = λ now secret code window. some (code == "123456");
}

abbrev fresh : Fresh
fresh = record {
  challenge_id = "c1";
  access_jti = "j1";
  refresh_jti = "j2";
  family_id = "f1";
  session_id = "s1";
  device_id = "d1";
  device_token = "t9";
}

abbrev idle : Auth memory_redis
idle = record { redis = none; pending = []; failed_attempts = []; lockouts = [] }

abbrev pending : Challenge
pending = record {
  user_id = "u1";
  challenge_type = "totp";
  created_at = 100;
  expires_at = 400;
  attempts = 2;
}

abbrev world : World services
world = record {
  users = ann;
  auth = record idle { pending = ("c1", pending) ∷ [] };
  sessions = record { redis = none; in_memory = []; user_index = [] };
  devices = [];
}

abbrev first : String
first = "u1"

abbrev second : String
second = "u2"

abbrev four : List ℕ
four = 10 ∷ 20 ∷ 30 ∷ 40 ∷ []

-- the fifth failed login locks the account for 900 seconds
fifth :
    let attempt =
      (record_failed_attempt memory_redis 50 "u1" (fail_at memory_redis four "u1" idle)).0 in
    (attempt.locked ≡ true) × (attempt.lockout_seconds ≡ 900)
unfolding lookup
fifth =
    let (_, locks, seconds) =
      record_failed_attempt-fail_at memory_redis four 50 "u1" idle refl refl in
    (locks, seconds)

early :
    949
    < 50
      + (record_failed_attempt memory_redis 50 "u1"
          (fail_at memory_redis four "u1" idle)).0.lockout_seconds
early = rw (fifth.1) (omega arith)

check_account_lockout-record_failed_attempt_example :
    let (attempt, s') =
      record_failed_attempt memory_redis 50 "u1" (fail_at memory_redis four "u1" idle) in
    ltb 0 (or_default (check_account_lockout memory_redis 949 "u1" s').0 0) ≡ true
check_account_lockout-record_failed_attempt_example =
    check_account_lockout-record_failed_attempt memory_redis 50 949 "u1"
      (fail_at memory_redis four "u1" idle) fifth.0 early

record_failed_attempt-fail_at_example :
    let attempt =
      (record_failed_attempt memory_redis 50 "u1" (fail_at memory_redis four "u1" idle)).0 in
    (attempt.attempts ≡ length four + 1)
    × (attempt.locked ≡ leb 5 (length four + 1))
    × (attempt.lockout_seconds
        ≡ (if ltb (length four) 4 then 0 else if ltb (length four) 9 then 900 else 3600))
unfolding lookup
record_failed_attempt-fail_at_example =
    record_failed_attempt-fail_at memory_redis four 50 "u1" idle refl refl

authenticate_credentials-lets_in_example :
    (users.get_by_identifier "ann" world.users ≡ none
      → authenticate_credentials services 200 fresh "ann" "secret" none none none world
        ≡ (failed "INVALID_CREDENTIALS", world))
    × ((user : User)
        → users.get_by_identifier "ann" world.users ≡ some user
        → is_success
            (authenticate_credentials services 200 fresh "ann" "secret" none none none world).0
          ≡ lets_in services 200 fresh user "secret" none none none world)
authenticate_credentials-lets_in_example =
    authenticate_credentials-lets_in services 200 fresh "ann" "secret" none none none world

abbrev tokens : Tokens memory_redis
tokens = record { redis = none; blocklist = []; revoked_families = [] }

complete_mfa_challenge-passes_example :
    is_success
      (complete_mfa_challenge services 200 fresh "u1" "c1" "123456" false none none world).0
    ≡ elim (users.get_by_id "u1" world.users) [
      | none ↦ false
      | some user ↦ elim (get_mfa_challenge memory_redis services.json "c1" world.auth).0 [
        | none ↦ false
        | some challenge ↦ passes services 200 user "u1" challenge "123456"
      ]
    ]
complete_mfa_challenge-passes_example =
    complete_mfa_challenge-passes services 200 fresh "u1" "c1" "123456" none none world
