-- ===== src/Token/Examples.antt =====
-- Tests of the token service, and its theorems at concrete inputs.
use auth_n_z.Common.{
  ltb, if◌then◌else◌, lookup, insert, lookup-insert, contains, ◌≡◌, refl, ◌↔◌, true, false, none,
  some, [], arith, ◌==◌, eq_refl,
}
use auth_n_z.Common.Redis.{Redis}
use auth_n_z.Common.Samples.{memory_redis}
use auth_n_z.Common.Jwt.{Claims, Jwt, claims, expired, invalid}
use auth_n_z.Token.Claims.{merge, access_base, access_payload, create_access_token}
use auth_n_z.Token.Service.{
  Tokens, payload, ask, mark, listed, mark_both, jti_of, exp_of, revoke_token, is_token_revoked,
  revoke_family, is_family_revoked, check_payload, decode_and_verify,
}
use auth_n_z.Token.Revocation.{on_list, KeepsWrites}
use auth_n_z.Token.Family.{is_family_revoked_written, family_forgotten}
use auth_n_z.Token.Verify.{
  jti_in, family_listed, decode_and_verify_iff, DecodesOwn, access_token_roundtrip,
}

-- Ann's claims as minted at 100 for 900 seconds
abbrev ann : Claims
ann = access_base 100 900 "j1" "ann"

-- a library that knows one token, "t1", and gives it for all claims
abbrev jwt : Jwt
jwt = record {
  encode = λ c. "t1";
  decode = λ now t.
      if t == "t1"
      then (if ltb now 100
          then invalid "The token is not yet valid (iat)"
          else if ltb now 1000
          then claims ann
          else expired)
      else invalid "Not enough segments";
  unverified = λ t. if t == "t1" then some ann else none;
}

abbrev quiet : Tokens memory_redis
quiet = record { redis = none; blocklist = []; revoked_families = [] }

abbrev served : Tokens memory_redis
served = record { redis = some []; blocklist = []; revoked_families = [] }

minted_accepted : (decode_and_verify memory_redis jwt 999 "t1" quiet).0 ≡ payload ann
unfolding decode_and_verify check_payload is_token_revoked is_family_revoked listed jti_of lookup
    contains
minted_accepted = refl

-- revoking the token revokes its `jti` with it
revoked_by_jti :
    (is_token_revoked memory_redis jwt "j1"
      (revoke_token memory_redis jwt 500 "t1" none served).1).0
    ≡ true
unfolding revoke_token mark_both is_token_revoked listed jti_of exp_of lookup insert contains
revoked_by_jti = refl

keeps_writes : KeepsWrites memory_redis
keeps_writes key value ttl db e = rw (lookup-insert key key value db, eq_refl key)

is_family_revoked_written_example :
    (is_family_revoked memory_redis "f1" (revoke_family memory_redis "f1" 604800 served).1).0 ≡ true
unfolding mark
is_family_revoked_written_example =
    is_family_revoked_written memory_redis keeps_writes "f1" 604800 served refl

-- a Redis that cannot write for the moment, as a primary that became a replica
abbrev read_only : Redis
read_only = record memory_redis { set = λ k v t d. (none, d) }

abbrev replica : Tokens read_only
replica = record { redis = some []; blocklist = []; revoked_families = [] }

family_forgotten_example :
    let r = revoke_family read_only "f1" 604800 replica in
    (r.0 ≡ true)
    × (contains "f1" r.1.revoked_families ≡ true)
    × ((is_family_revoked read_only "f1" r.1).0 ≡ false)
unfolding mark ask lookup
family_forgotten_example = family_forgotten read_only "f1" 604800 replica refl refl

decode_and_verify_iff_example :
    (((decode_and_verify memory_redis jwt 999 "t1" quiet).0 ≡ payload ann) ↔ (
      (on_list memory_redis jwt "t1" [] ≡ false)
      × (jwt.decode 999 "t1" ≡ claims ann)
      × (on_list memory_redis jwt (jti_in memory_redis jwt ann) [] ≡ false)
      × (family_listed memory_redis jwt ann quiet ≡ false)))
    × ((decode_and_verify memory_redis jwt 999 "t1" quiet).1 ≡ quiet)
decode_and_verify_iff_example = decode_and_verify_iff memory_redis jwt 999 "t1" quiet ann refl

decodes_own : DecodesOwn memory_redis jwt (access_payload 100 900 "j1" "ann" [])
unfolding access_payload merge lookup
decodes_own now iat exp i e le lt = ground arith

access_token_roundtrip_example :
    (decode_and_verify memory_redis jwt 999 (create_access_token jwt 100 900 "j1" "ann" []) quiet).0
    ≡ payload (access_payload 100 900 "j1" "ann" [])
unfolding create_access_token jti_of lookup contains
access_token_roundtrip_example =
    access_token_roundtrip memory_redis jwt 100 999 900 "j1" "ann" [] quiet decodes_own refl
      (omega arith) (omega arith) refl refl refl
