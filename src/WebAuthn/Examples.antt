-- ===== src/WebAuthn/Examples.antt =====
-- Passkeys at a concrete library, for which every text stands for itself: the challenge of an answer is
-- its text, and the counter of every answer is 0.
use auth_n_z.Common.{
  leb, if◌then◌else◌, lookup, remove, ◌+◌, String, ◌≡◌, refl, false, none, some, [], ◌∷◌, arith,
}
use auth_n_z.Common.Rows.{ok, first_where}
use auth_n_z.Common.Samples.{memory_redis}
use auth_n_z.WebAuthn.Service.{
  Passkey, Assertion, Fido, Ceremony, Json, Service, save_challenge, pop_challenge,
  consume_challenge, wrap, challenge_in,
}
use auth_n_z.WebAuthn.Verify.{
  Accepted, change_first, use_passkey, is_regression, check_passkey, check_authentication,
  verify_authentication_response,
}
use auth_n_z.WebAuthn.Challenges.{
  is_ok, consume_challenge-save_challenge, verify_authentication_response_once,
}
use auth_n_z.WebAuthn.Counter.{verify_authentication_response-counter}

abbrev library : Fido
library = record {
  State = Unit {0};
  Credential = String;
  challenge_of = λ t. ok (some t);
  decode = λ t. ok t;
  attestation_id = λ t. ok (some t);
  register_complete = λ s c a i. ok none;
  unpack = λ t. ok t;
  counter_of = λ t. ok 0;
  authenticate_complete = λ s k a. ok tt;
}

abbrev json : Json library
json = record { dumps = λ c. ""; loads = λ t. none }

abbrev idle : Service library memory_redis json
idle = record { redis = none; challenges = [] }

abbrev ceremony : Ceremony library
ceremony = record { kind = "authentication"; user_id = some "u1"; state = tt }

abbrev pending : Service library memory_redis json
pending = record { redis = none; challenges = ("c1", (ceremony, 400)) ∷ [] }

abbrev passkey : Passkey
passkey = record {
  credential_id = "k1";
  public_key = "p1";
  device_label = "Phone";
  created_at = 10;
  last_used_at = 10;
  sign_count = 0;
  transports = [];
  aaguid = "";
}

abbrev answer : Assertion
answer = record {
  client_data = "c1";
  credential_id = "k1";
  authenticator_data = "";
  signature = "";
  user_handle = none;
}

abbrev second_answer : Assertion
second_answer = record answer { client_data = "c2" }

consume_challenge-save_challenge_example :
    let (found, s') =
      consume_challenge library memory_redis json 200 "c1"
        (save_challenge library memory_redis json 100 "c1" ceremony 300 idle) in
    (found ≡ (if leb 200 (100 + 300) then some ceremony else none))
    × ((consume_challenge library memory_redis json 201 "c1" s').0 ≡ none)
consume_challenge-save_challenge_example =
    consume_challenge-save_challenge library memory_redis json 100 200 201 "c1" ceremony 300 idle
      refl

verify_authentication_response_once_example :
    let s' =
      (verify_authentication_response library memory_redis json 200 answer
        (passkey ∷ [])
        pending).1 in
    is_ok (verify_authentication_response library memory_redis json 201 answer (passkey ∷ []) s').0
    ≡ false
verify_authentication_response_once_example =
    verify_authentication_response_once library memory_redis json 200 201 answer answer
      (passkey ∷ []) (passkey ∷ []) pending refl refl

abbrev accepted : Accepted
accepted = record {
  passkeys = record passkey { last_used_at = 200; sign_count = 1 } ∷ [];
  user_id = some "u1";
}

accepting :
    verify_authentication_response library memory_redis json 200 answer (passkey ∷ []) pending
    ≡ (ok accepted, idle)
unfolding verify_authentication_response challenge_in wrap consume_challenge pop_challenge lookup
    remove check_authentication first_where check_passkey is_regression change_first use_passkey
accepting = refl

-- the phone reports 0 again, to a fresh challenge
abbrev pending_again : Service library memory_redis json
pending_again = record { redis = none; challenges = ("c2", (ceremony, 600)) ∷ [] }

verify_authentication_response-counter_example :
    is_ok
      (verify_authentication_response library memory_redis json 300 second_answer accepted.passkeys
        pending_again).0
    ≡ false
verify_authentication_response-counter_example =
    verify_authentication_response-counter library memory_redis json 200 300 0 0 answer
      second_answer (passkey ∷ []) accepted pending idle pending_again refl accepting refl refl
      (omega arith)
