-- ===== src/WebAuthn/Challenges.antt =====
-- A challenge is good for one answer.
use auth_n_z.Common.{
  leb, if◌then◌else◌, Option-cases, lookup, insert, lookup-insert, lookup-remove, ℕ, ◌+◌, String,
  ◌≡◌, refl, sym, ap, ◌∙◌, subst, inl, inr, Bool, true, false, none, some, List, arith, eq_refl,
}
use auth_n_z.Common.Rows.{Reply, ok, raised, Reply-cases}
use auth_n_z.Common.Redis.{Redis}
use auth_n_z.WebAuthn.Service.{
  Passkey, Assertion, Fido, Ceremony, Json, Service, save_challenge, pop_challenge,
  consume_challenge, challenge_in,
}
use auth_n_z.WebAuthn.Verify.{verify_authentication_response}

abbrev pub is_ok {ℓ} : {A : Type ℓ} → Reply A → Bool
is_ok (ok a) = true
is_ok (raised e) = false

module _ (F : Fido) (R : Redis) (J : Json F) where
  popped :
      (now : ℕ) (id : String) (s : Service F R J)
      → s.redis ≡ none
      → consume_challenge F R J now id s ≡ pop_challenge F R J now id s
  unfolding consume_challenge
  popped now id s off = ground arith

  unknown :
      (now : ℕ) (id : String) (s : Service F R J)
      → s.redis ≡ none
      → lookup id s.challenges ≡ none
      → consume_challenge F R J now id s ≡ (none, s)
  unfolding pop_challenge
  unknown now id s off missing = popped now id s off ∙ rw (pop_challenge, missing) refl

  -- after a challenge was consumed it is not there any more
  consumed :
      (now : ℕ) (id : String) (s : Service F R J)
      → s.redis ≡ none
      → let s' = (consume_challenge F R J now id s).1 in
        (s'.redis ≡ none) × (lookup id s'.challenges ≡ none)
  unfolding pop_challenge
  consumed now id s off = elim (Option-cases (lookup id s.challenges)) [
    | inl missing ↦ rw (popped now id s off, pop_challenge, missing) (off, missing)
    | inr ((data', expires_at), there) ↦
        rw (popped now id s off, pop_challenge, there)
          (off, ground (arith, lookup-remove id id s.challenges, eq_refl id))
  ]

  -- Without Redis, a challenge that is saved is found once, with the data it was saved with, exactly
  -- until its time is over; after that first request for it, in time or not, it is not found again.
  pub consume_challenge-save_challenge :
      (now later last : ℕ) (id : String) (data' : Ceremony F) (ttl : ℕ) (s : Service F R J)
      → s.redis ≡ none
      → let (found, s') =
          consume_challenge F R J later id (save_challenge F R J now id data' ttl s) in
        (found ≡ (if leb later (now + ttl) then some data' else none))
        × ((consume_challenge F R J last id s').0 ≡ none)
  unfolding save_challenge pop_challenge
  consume_challenge-save_challenge now later last id data' ttl s off =
      let s1 : Service F R J = record s {
        challenges = insert id (data', now + ttl) s.challenges;
      } in
      let saved : save_challenge F R J now id data' ttl s ≡ s1 = ground arith in
      let there : lookup id s1.challenges ≡ some (data', now + ttl) =
        ground (arith, lookup-insert id id (data', now + ttl) s.challenges, eq_refl id) in
      let (off', gone) = consumed later id s1 off in
      rw saved (
        rw (popped later id s1 off, pop_challenge, there) refl,
        ap (λ r. r.0) (unknown last id (consume_challenge F R J later id s1).1 off' gone),
      )

  -- the answer to a challenge that is not there
  refused :
      (now : ℕ) (a : Assertion) (ks : List Passkey) (s : Service F R J)
      → s.redis ≡ none
      → ((id : String) → challenge_in F a.client_data ≡ ok id → lookup id s.challenges ≡ none)
      → is_ok (verify_authentication_response F R J now a ks s).0 ≡ false
  unfolding verify_authentication_response
  refused now a ks s off missing = elim (Reply-cases (challenge_in F a.client_data)) [
    | inr (e, failed) ↦ rw (verify_authentication_response, failed) refl
    | inl (id, named) ↦
        rw (verify_authentication_response, named)
          (rw (unknown now id s off (missing id named)) refl)
  ]

  state_after :
      (now : ℕ) (a : Assertion) (ks : List Passkey) (s : Service F R J) (id : String)
      → challenge_in F a.client_data ≡ ok id
      → (verify_authentication_response F R J now a ks s).1 ≡ (consume_challenge F R J now id s).1
  unfolding verify_authentication_response
  state_after now a ks s id named = elim (Option-cases (consume_challenge F R J now id s).0) [
    | inl missing ↦ rw (verify_authentication_response, named, missing) refl
    | inr (data', found) ↦ rw (verify_authentication_response, named, found) refl
  ]

  after_answer :
      (now : ℕ) (a : Assertion) (ks : List Passkey) (s : Service F R J)
      → s.redis ≡ none
      → let s' = (verify_authentication_response F R J now a ks s).1 in
        (s'.redis ≡ none)
        × ((id : String) → challenge_in F a.client_data ≡ ok id → lookup id s'.challenges ≡ none)
  unfolding verify_authentication_response
  after_answer now a ks s off = elim (Reply-cases (challenge_in F a.client_data)) [
    | inr (e, failed) ↦
        rw (verify_authentication_response, failed) (off, λ id named. absurd (ground arith))
    | inl (id, named) ↦
        let (off', gone) = consumed now id s off in
        rw (state_after now a ks s id named) (
          off',
          λ id' named'.
              let same : id ≡ id' = ground arith in
              subst (λ i. lookup i (consume_challenge F R J now id s).1.challenges ≡ none) same
                gone,
        )
  ]

  -- Without Redis, an answer cannot be played again: after any answer, whether it was accepted or
  -- refused, every other answer that names the same challenge is refused, at any time and for any
  -- passkeys.
  pub verify_authentication_response_once :
      (now later : ℕ) (a a' : Assertion) (ks ks' : List Passkey) (s : Service F R J)
      → s.redis ≡ none
      → challenge_in F a'.client_data ≡ challenge_in F a.client_data
      → let s' = (verify_authentication_response F R J now a ks s).1 in
        is_ok (verify_authentication_response F R J later a' ks' s').0 ≡ false
  verify_authentication_response_once now later a a' ks ks' s off same =
      let (off', gone) = after_answer now a ks s off in
      refused later a' ks' (verify_authentication_response F R J now a ks s).1 off'
        (λ id named. gone id (sym same ∙ named))
