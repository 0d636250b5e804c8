-- ===== src/Auth/Complete.antt =====
-- `complete_mfa_challenge`.
use auth_n_z.Common.{
  ltb, leb, nat_eq, if◌then◌else◌, length, ℕ, ◌+◌, String, Bool, true, false, not, ◌&&◌, Option,
  none, some, List, ◌==◌, text_append,
}
use auth_n_z.Identity.{User}
use auth_n_z.Mfa.Provider.{verify_totp_code, verify_and_consume_backup_code}
use auth_n_z.Device.Service.{DeviceInfo, create_trusted_device}
use auth_n_z.Auth.State.{Challenge}
use auth_n_z.Auth.Challenges.{get_mfa_challenge, save_mfa_challenge, delete_mfa_challenge}
use auth_n_z.Auth.Login.{Services, World, Fresh, Login, failed, value_error, success, log_in}

module _ (V : Services) where
  -- the code of the authenticator app, or else a backup code; with the codes that are left where a
  -- backup code was used
  unfoldable pub check_code : (now : ℕ) → User → String → Bool × Option (List String)
  check_code now user response_code =
      let codes = user.metadata.backup_codes in
      let (valid, remaining) = verify_and_consume_backup_code V.sha256 response_code codes in
      if verify_totp_code V.totp now user.metadata.mfa_secret response_code 1
      then (true, none)
      else if valid && not (nat_eq (length codes) 0)
      then (true, some remaining)
      else (false, none)

  -- `self.user_repo.update_user(user["id"], {"metadata": metadata})`
  unfoldable pub store_codes : User → Option (List String) → World V → World V
  store_codes user none w = w
  store_codes user (some remaining) w = record w {
    users = V.U.set_metadata user.id (record user.metadata { backup_codes = remaining }) w.users;
  }

  -- the answer to a wrong code
  unfoldable pub reject_code : String → Challenge → World V → Login × World V
  reject_code id challenge w =
      let counted = record challenge { attempts = challenge.attempts + 1 } in
      if leb 3 counted.attempts
      then (
        failed "MFA_ATTEMPTS_EXCEEDED",
        record w { auth = delete_mfa_challenge V.R V.json id w.auth },
      )
      else (
        failed "INVALID_MFA_CODE",
        record w { auth = save_mfa_challenge V.R V.json id counted 300 w.auth },
      )

  -- the new trusted device, and its token, where one is wanted; `none` is the ValueError
  unfoldable pub remember :
      (now : ℕ)
      → Fresh
      → User
      → Bool
      → (user_agent ip : Option String) → World V
      → Option (Option DeviceInfo × Option String) × World V
  remember now fresh user remember_device user_agent ip w =
      let (made, ds) =
        create_trusted_device V.uuid V.sha256 fresh.device_id fresh.device_token now user.id
          user_agent ip 30 w.devices in
      if not remember_device then (some (none, none), w) else elim made [
        | none ↦ (none, w)
        | some (info, token) ↦ (some (some info, some token), record w { devices = ds })
      ]

  -- the answer to a right code
  unfoldable pub accept_code :
      (now : ℕ)
      → Fresh
      → String
      → User
      → Bool
      → (user_agent ip : Option String) → World V
      → Login × World V
  accept_code now fresh id user remember_device user_agent ip w =
      let deleted = record w { auth = delete_mfa_challenge V.R V.json id w.auth } in
      let (done, w') = log_in V now fresh user false none none deleted in
      let (made, w'') = remember now fresh user remember_device user_agent ip w' in
      elim made [
        | none ↦ (value_error (text_append "Invalid user_id for trusted device: " user.id), w'')
        | some (info, token) ↦
            (success (record done { trusted_device = info; raw_device_token = token }), w'')
      ]

  -- `complete_mfa_challenge` of a challenge that was found
  unfoldable pub answer_challenge :
      (now : ℕ)
      → Fresh
      → User
      → (user_id id : String) → Challenge
      → (response_code : String) → Bool
      → (user_agent ip : Option String) → World V
      → Login × World V
  answer_challenge now fresh user user_id id challenge response_code remember_device user_agent ip
        w =
      let (valid, remaining) = check_code now user response_code in
      if not (challenge.user_id == user_id)
      then (failed "CHALLENGE_USER_MISMATCH", w)
      else if ltb challenge.expires_at now
      then (
        failed "MFA_CHALLENGE_EXPIRED",
        record w { auth = delete_mfa_challenge V.R V.json id w.auth },
      )
      else if user.metadata.mfa_secret == ""
      then (failed "MFA_NOT_CONFIGURED", w)
      else if valid
      then accept_code now fresh id user remember_device user_agent ip
          (store_codes user remaining w)
      else reject_code id challenge w

  -- `complete_mfa_challenge`
  unfoldable pub complete_mfa_challenge :
      (now : ℕ)
      → Fresh
      → (user_id challenge_id response_code : String) → Bool
      → (user_agent ip : Option String) → World V
      → Login × World V
  complete_mfa_challenge now fresh user_id challenge_id response_code remember_device user_agent ip
        w =
      elim (V.U.get_by_id user_id w.users) [
        | none ↦ (failed "USER_NOT_FOUND", w)
        | some user ↦
            let (found, s) = get_mfa_challenge V.R V.json challenge_id w.auth in
            elim found [
              | none ↦ (failed "MFA_CHALLENGE_DOES_NOT_EXIST", record w { auth = s })
              | some challenge ↦
                  answer_challenge now fresh user user_id challenge_id challenge response_code
                    remember_device user_agent ip (record w { auth = s })
            ]
      ]
