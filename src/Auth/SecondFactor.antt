-- ===== src/Auth/SecondFactor.antt =====
-- When a second-factor challenge is passed.
use auth_n_z.Common.{
  leb, nat_eq, if◌then◌else◌, Option-cases, length, lookup, contains, ℕ, ◌+◌, String, ◌≡◌, inl, inr,
  Bool, true, false, not, ◌&&◌, ◌||◌, Option, none, some, List, [], ◌∷◌, arith, ◌==◌,
}
use auth_n_z.Identity.{User}
use auth_n_z.Mfa.Provider.{verify_totp_code, hash_backup_code}
use auth_n_z.Mfa.BackupCodes.{verify_and_consume_backup_code-count}
use auth_n_z.Auth.State.{Challenge}
use auth_n_z.Auth.Challenges.{get_mfa_challenge, get-save_mfa_challenge, get-delete_mfa_challenge}
use auth_n_z.Auth.Login.{Services, World, Fresh}
use auth_n_z.Auth.Complete.{
  check_code, store_codes, reject_code, remember, accept_code, answer_challenge,
  complete_mfa_challenge,
}
use auth_n_z.Auth.Accepted.{is_success}

module _ (V : Services) where
  -- the code is that of the authenticator app, or its digest is among the stored backup codes
  abbrev pub is_right_code : (now : ℕ) → User → (response_code : String) → Bool
  is_right_code now user response_code =
      verify_totp_code V.totp now user.metadata.mfa_secret response_code 1
      || contains (hash_backup_code V.sha256 response_code) user.metadata.backup_codes

  has_some : (x : String) (xs : List String) → contains x xs ≡ true → nat_eq (length xs) 0 ≡ false
  unfolding contains
  has_some x [] there = ground arith
  has_some x (y ∷ ys) there = ground arith

  check_code-right :
      (now : ℕ) (user : User) (response_code : String)
      → (check_code V now user response_code).0 ≡ is_right_code now user response_code
  unfolding check_code
  check_code-right now user response_code =
      let codes = user.metadata.backup_codes in
      let digest = hash_backup_code V.sha256 response_code in
      ground (
        arith,
        (verify_and_consume_backup_code-count V.sha256 response_code codes).0,
        has_some digest codes,
      )

  -- what `complete_mfa_challenge` asks of a user and a challenge that are there
  pub passes : (now : ℕ) → User → (user_id : String) → Challenge → (response_code : String) → Bool
  passes now user user_id challenge response_code =
      challenge.user_id == user_id
      && leb now challenge.expires_at
      && not (user.metadata.mfa_secret == "")
      && is_right_code now user response_code

  accepted :
      (now : ℕ) (fresh : Fresh) (id : String) (user : User) (agent ip : Option String) (w : World V)
      → is_success (accept_code V now fresh id user false agent ip w).0 ≡ true
  unfolding accept_code remember is_success
  accepted now fresh id user agent ip w = ground arith

  rejected :
      (id : String) (challenge : Challenge) (w : World V)
      → is_success (reject_code V id challenge w).0 ≡ false
  unfolding reject_code is_success
  rejected id challenge w = ground arith

  answered :
      (now : ℕ) (fresh : Fresh) (user : User) (user_id id : String) (challenge : Challenge)
      (code : String) (agent ip : Option String) (w : World V)
      → is_success (answer_challenge V now fresh user user_id id challenge code false agent ip w).0
        ≡ passes now user user_id challenge code
  unfolding answer_challenge passes is_success
  answered now fresh user user_id id challenge code agent ip w =
      let remaining = (check_code V now user code).1 in
      ground (
        arith,
        check_code-right now user code,
        accepted now fresh id user agent ip (store_codes V user remaining w),
        rejected id challenge w,
      )

  -- Where no device is to be remembered, a challenge is passed exactly if the user and the challenge
  -- are found, the challenge is that user's and has not expired, the user has a secret, and the code
  -- is that of the authenticator app or its digest is among the user's stored backup codes.
  pub complete_mfa_challenge-passes :
      (now : ℕ) (fresh : Fresh) (user_id id code : String) (agent ip : Option String) (w : World V)
      → is_success (complete_mfa_challenge V now fresh user_id id code false agent ip w).0
        ≡ elim (V.U.get_by_id user_id w.users) [
          | none ↦ false
          | some user ↦ elim (get_mfa_challenge V.R V.json id w.auth).0 [
            | none ↦ false
            | some challenge ↦ passes now user user_id challenge code
          ]
        ]
  unfolding complete_mfa_challenge is_success
  complete_mfa_challenge-passes now fresh user_id id code agent ip w =
      let (found, s) = get_mfa_challenge V.R V.json id w.auth in
      elim (Option-cases (V.U.get_by_id user_id w.users)) [
        | inl unknown ↦ ground arith
        | inr (user, known) ↦ elim (Option-cases found) [
          | inl missing ↦ ground arith
          | inr (challenge, there) ↦ ground (
            arith,
            answered now fresh user user_id id challenge code agent ip (record w { auth = s }),
          )
        ]
      ]

  -- Without Redis, after a code is wrong, the challenge is gone if it was the third wrong one, and
  -- else is kept with one more attempt; the other challenges are as they were.
  pub reject_code-challenge :
      (id other : String) (challenge : Challenge) (w : World V)
      → w.auth.redis ≡ none
      → let s = (reject_code V id challenge w).1.auth in
        (get_mfa_challenge V.R V.json other s).0 ≡ (
          if not (id == other)
          then lookup other w.auth.pending
          else if leb 2 challenge.attempts
          then none
          else some (record challenge { attempts = challenge.attempts + 1 }))
  unfolding reject_code
  reject_code-challenge id other challenge w off =
      let counted = record challenge { attempts = challenge.attempts + 1 } in
      ground (
        arith,
        get-save_mfa_challenge V.R V.json id other counted 300 w.auth,
        get-delete_mfa_challenge V.R V.json id other w.auth,
      )
