-- ===== src/WebAuthn/Counter.antt =====
-- The sign counter of a passkey.
use auth_n_z.Common.{
  Bool-cases, Option-cases, ℕ, ◌≤◌, max, String, ◌≡◌, refl, ap, subst, inl, inr, true, false, some,
  List, [], ◌∷◌, arith, ◌==◌,
}
use auth_n_z.Common.Rows.{ok, first_where, Reply-cases}
use auth_n_z.Common.Redis.{Redis}
use auth_n_z.WebAuthn.Service.{
  Passkey, Assertion, Fido, Ceremony, Json, Service, consume_challenge, challenge_in, wrap,
}
use auth_n_z.WebAuthn.Verify.{
  Accepted, has_credential, change_first, use_passkey, is_regression, check_passkey,
  check_authentication, verify_authentication_response,
}
use auth_n_z.WebAuthn.Challenges.{is_ok}

-- the first passkey of a credential after its use
first-change_first :
    (id : String) (f : Passkey → Passkey) (ks : List Passkey) (k : Passkey)
    → ((j : Passkey) → (f j).credential_id ≡ j.credential_id)
    → first_where (has_credential id) ks ≡ some k
    → first_where (has_credential id) (change_first id f ks) ≡ some (f k)
unfolding first_where change_first
first-change_first id f [] k keeps found = ground arith
first-change_first id f (j ∷ ks) k keeps found =
    ground (arith, keeps j, first-change_first id f ks k keeps)

use_passkey-credential :
    (now n : ℕ) (j : Passkey) → (use_passkey now n j).credential_id ≡ j.credential_id
unfolding use_passkey
use_passkey-credential now n j = refl

module _ (F : Fido) where
  -- an accepted answer, and what it did
  passkey_cases :
      (now n : ℕ) (a : Assertion) (data' : Ceremony F) (ks : List Passkey) (k : Passkey)
      (acc : Accepted)
      → F.counter_of a.authenticator_data ≡ ok n
      → check_passkey F now a data' ks k ≡ ok acc
      → (is_regression n k.sign_count ≡ false)
        × (change_first a.credential_id (use_passkey now n) ks ≡ acc.passkeys)
  unfolding check_passkey wrap
  passkey_cases now n a data' ks k acc counted h = elim (Bool-cases (k.public_key == "")) [
    | inl empty ↦ absurd (ground arith)
    | inr filled ↦ elim (Reply-cases (F.unpack k.public_key)) [
      | inr (e, failed) ↦ absurd (ground arith)
      | inl (stored, fine) ↦ elim (Bool-cases (is_regression n k.sign_count)) [
        | inl back ↦ absurd (ground arith)
        | inr forward ↦ elim (Reply-cases (F.authenticate_complete data'.state stored a)) [
          | inr (e, forged) ↦ absurd (ground arith)
          | inl (u, signed) ↦
              let same : record {
                passkeys = change_first a.credential_id (use_passkey now n) ks;
                user_id = data'.user_id;
              }
                  ≡ acc =
                ground arith in
              (forward, ap (λ (r : Accepted). r.passkeys) same)
        ]
      ]
    ]
  ]

  regressed :
      (now m : ℕ) (a : Assertion) (data' : Ceremony F) (ks : List Passkey) (k : Passkey)
      → F.counter_of a.authenticator_data ≡ ok m
      → is_regression m k.sign_count ≡ true
      → is_ok (check_passkey F now a data' ks k) ≡ false
  unfolding check_passkey wrap
  regressed now m a data' ks k counted back = elim (Bool-cases (k.public_key == "")) [
    | inl empty ↦ ground arith
    | inr filled ↦ elim (Reply-cases (F.unpack k.public_key)) [
      | inr (e, failed) ↦ ground arith
      | inl (stored, fine) ↦ ground arith
    ]
  ]

  -- an accepted answer whose challenge was found
  accepted_cases :
      (now n : ℕ) (a : Assertion) (data' : Ceremony F) (ks : List Passkey) (acc : Accepted)
      → F.counter_of a.authenticator_data ≡ ok n
      → check_authentication F now a data' ks ≡ ok acc
      → (k : Passkey) × (first_where (has_credential a.credential_id) ks ≡ some k)
        × (is_regression n k.sign_count ≡ false)
        × (change_first a.credential_id (use_passkey now n) ks ≡ acc.passkeys)
  unfolding check_authentication
  accepted_cases now n a data' ks acc counted h =
      elim (Option-cases (first_where (has_credential a.credential_id) ks)) [
        | inl missing ↦ absurd (ground arith)
        | inr (k, found) ↦
            let (forward, state) = passkey_cases now n a data' ks k acc counted (ground arith) in
            (k, found, forward, state)
      ]

  counter_after :
      (now n m : ℕ) (k : Passkey)
      → is_regression n k.sign_count ≡ false
      → m ≤ max n 1
      → is_regression m (use_passkey now n k).sign_count ≡ true
  unfolding is_regression use_passkey
  counter_after now n m k forward low = ground arith

  module _ (R : Redis) (J : Json F) where
    verified_cases :
        (now : ℕ) (a : Assertion) (ks : List Passkey) (acc : Accepted) (s s' : Service F R J)
        → verify_authentication_response F R J now a ks s ≡ (ok acc, s')
        → (data' : Ceremony F) × (check_authentication F now a data' ks ≡ ok acc)
    unfolding verify_authentication_response
    verified_cases now a ks acc s s' h = elim (Reply-cases (challenge_in F a.client_data)) [
      | inr (e, failed) ↦ absurd (ground arith)
      | inl (id, named) ↦ elim (Option-cases (consume_challenge F R J now id s).0) [
        | inl missing ↦ absurd (ground arith)
        | inr (data', found) ↦ (data', ground arith)
      ]
    ]

    refused_all :
        (now : ℕ) (a : Assertion) (ks : List Passkey) (s : Service F R J)
        → ((data' : Ceremony F) → is_ok (check_authentication F now a data' ks) ≡ false)
        → is_ok (verify_authentication_response F R J now a ks s).0 ≡ false
    unfolding verify_authentication_response
    refused_all now a ks s never = elim (Reply-cases (challenge_in F a.client_data)) [
      | inr (e, failed) ↦ ground arith
      | inl (id, named) ↦ elim (Option-cases (consume_challenge F R J now id s).0) [
        | inl missing ↦ ground arith
        | inr (data', found) ↦ ground (arith, never data')
      ]
    ]

    -- After an accepted answer whose counter is n, every later answer for that credential whose
    -- counter is at most n is refused, whatever its signature and whatever challenges are pending; and
    -- so is one with a counter of 0 or 1 when n is 0, since the stored counter is 1 then. An
    -- authenticator that has no counter and always reports 0 is accepted once.
    pub verify_authentication_response-counter :
        (now later n m : ℕ) (a a' : Assertion) (ks : List Passkey) (acc : Accepted)
        (s s' s'' : Service F R J)
        → F.counter_of a.authenticator_data ≡ ok n
        → verify_authentication_response F R J now a ks s ≡ (ok acc, s')
        → a'.credential_id ≡ a.credential_id
        → F.counter_of a'.authenticator_data ≡ ok m
        → m ≤ max n 1
        → is_ok (verify_authentication_response F R J later a' acc.passkeys s'').0 ≡ false
    unfolding check_authentication
    verify_authentication_response-counter now later n m a a' ks acc s s' s'' counted h same
          counted' low =
        let (data', checked) = verified_cases now a ks acc s s' h in
        let (k, found, forward, state) = accepted_cases now n a data' ks acc counted checked in
        let used =
          first-change_first a.credential_id (use_passkey now n) ks k (use_passkey-credential now n)
            found in
        let there : first_where (has_credential a'.credential_id) acc.passkeys
            ≡ some (use_passkey now n k) =
          subst
            (λ xs. first_where (has_credential a'.credential_id) xs ≡ some (use_passkey now n k))
            state (rw same used) in
        refused_all later a' acc.passkeys s'' (λ other.
          rw (check_authentication, there)
            (regressed later m a' other acc.passkeys (use_passkey now n k) counted'
              (counter_after now n m k forward low)))
