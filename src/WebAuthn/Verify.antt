-- ===== src/WebAuthn/Verify.antt =====
-- `verify_registration_response` and `verify_authentication_response` of webauthn_service.py. The
-- challenge of an answer is consumed before anything else of it is looked at, also where the answer
-- is refused then.
use auth_n_z.Common.{
  ltb, leb, if◌then◌else◌, ℕ, ◌+◌, String, Bool, false, ◌&&◌, ◌||◌, Option, none, some, List, [],
  ◌∷◌, ◌==◌, text_append, text_or, show_nat,
}
use auth_n_z.Common.Rows.{Reply, ok, raised, ◌>>=◌, first_where}
use auth_n_z.Common.Redis.{Redis}
use auth_n_z.WebAuthn.Service.{
  Attested, Passkey, Assertion, Registration, Fido, Ceremony, Json, Service, consume_challenge,
  wrap, challenge_in,
}

-- what an accepted authentication gives: the passkeys after it, and the user of the challenge
pub record Accepted : Type 0 where
  pub passkeys : List Passkey
  pub user_id : Option String

abbrev pub has_credential : String → Passkey → Bool
has_credential id k = k.credential_id == id

-- the first passkey of the credential is changed in place
unfoldable pub change_first : String → (Passkey → Passkey) → List Passkey → List Passkey
change_first id f [] = []
change_first id f (k ∷ ks) = if has_credential id k then f k ∷ ks else k ∷ change_first id f ks

-- `matched_passkey["last_used_at"]` and `["sign_count"]`
unfoldable pub use_passkey : (now incoming : ℕ) → Passkey → Passkey
use_passkey now incoming k = record k {
  last_used_at = now;
  sign_count = if ltb 0 incoming then incoming else k.sign_count + 1;
}

-- the clone detection
unfoldable pub is_regression : (incoming stored : ℕ) → Bool
is_regression incoming stored = (ltb 0 incoming || ltb 0 stored) && leb incoming stored

unfoldable pub regression_error : (incoming stored : ℕ) → String
regression_error incoming stored =
    text_append "WebAuthn sign counter regression detected: incoming counter (" (
      text_append (show_nat incoming) (
        text_append ") <= stored counter ("
          (text_append (show_nat stored) "). Authenticator clone detected!")))

module _ (F : Fido) where
  -- the passkey of a verified attestation
  unfoldable pub new_passkey : (now : ℕ) → Registration → Attested → Passkey
  new_passkey now r a = record {
    credential_id = a.credential_id;
    public_key = a.public_key;
    device_label = text_or r.device_label "Biometric Passkey / Security Key";
    created_at = now;
    last_used_at = now;
    sign_count = a.counter;
    transports = elim r.transports [ [] ↦ "internal" ∷ "hybrid" ∷ "usb" ∷ [] | t ∷ ts ↦ t ∷ ts ];
    aaguid = a.aaguid;
  }

  -- the id of the attested credential
  unfoldable pub attested_id : String → Reply String
  attested_id attestation = do
    bytes ← F.decode attestation
    let error : String = "AttestationObject does not contain credential data."
    wrap "Failed to parse AttestationObject: "
        (F.attestation_id bytes >>= λ found. elim found [ none ↦ raised error | some id ↦ ok id ])

  -- a registration whose challenge was found
  unfoldable pub check_registration : (now : ℕ) → Registration → F.State → Reply Passkey
  check_registration now r state = do
    own ← attested_id r.attestation
    let id = text_or r.credential_id own
    verified ←
        wrap "Cryptographic attestation verification failed: "
          (F.register_complete state r.client_data r.attestation id)
    elim verified [
      | none ↦ raised "No attested credential data extracted from verified response."
      | some a ↦ ok (new_passkey now r a)
    ]

  -- the counter and the signature of an answer for a passkey
  unfoldable pub check_passkey :
      (now : ℕ) → Assertion → Ceremony F → List Passkey → Passkey → Reply Accepted
  check_passkey now a data' passkeys k =
      if k.public_key == ""
      then raised "No cryptographic public key registered for this credential."
      else do
        stored ← wrap "Failed to unpack stored public key: " (F.unpack k.public_key)
        incoming ← wrap "Invalid authenticatorData: " (F.counter_of a.authenticator_data)
        if is_regression incoming k.sign_count
            then raised (regression_error incoming k.sign_count)
            else do
              signed ←
                  wrap "Cryptographic signature verification failed: "
                    (F.authenticate_complete data'.state stored a)
              ok (record {
                passkeys = change_first a.credential_id (use_passkey now incoming) passkeys;
                user_id = data'.user_id;
              })

  -- an authentication whose challenge was found
  unfoldable pub check_authentication :
      (now : ℕ) → Assertion → Ceremony F → List Passkey → Reply Accepted
  check_authentication now a data' passkeys =
      elim (first_where (has_credential a.credential_id) passkeys) [
        | none ↦ raised "Credential ID not registered for this account."
        | some k ↦ check_passkey now a data' passkeys k
      ]

  module _ (R : Redis) (J : Json F) where
    -- `verify_registration_response`
    unfoldable pub verify_registration_response :
        (now : ℕ) (user_id : String) → Registration → Service F R J → Reply Passkey × Service F R J
    verify_registration_response now user_id r s =
        if r.attestation == ""
        then (raised "Missing attestationObject in WebAuthn registration response.", s)
        else elim (challenge_in F r.client_data) [
          | raised e ↦ (raised e, s)
          | ok challenge ↦
              let (found, s') = consume_challenge F R J now challenge s in
              elim found [
                | none ↦ (raised "Invalid or expired WebAuthn registration challenge.", s')
                | some data' ↦ (
                  if data'.kind == "registration"
                        && elim data'.user_id [ none ↦ false | some u ↦ u == user_id ]
                      then check_registration now r data'.state
                      else raised "Invalid or expired WebAuthn registration challenge.",
                  s',
                )
              ]
        ]

    -- `verify_authentication_response`
    unfoldable pub verify_authentication_response :
        (now : ℕ) → Assertion → List Passkey → Service F R J → Reply Accepted × Service F R J
    verify_authentication_response now a passkeys s = elim (challenge_in F a.client_data) [
      | raised e ↦ (raised e, s)
      | ok challenge ↦
          let (found, s') = consume_challenge F R J now challenge s in
          elim found [
            | none ↦ (raised "Invalid or expired WebAuthn authentication challenge.", s')
            | some data' ↦ (
              if data'.kind == "authentication"
                  then check_authentication now a data' passkeys
                  else raised "Invalid or expired WebAuthn authentication challenge.",
              s',
            )
          ]
    ]
