-- ===== src/Auth/Login.antt =====
-- `initiate_mfa_challenge` and `authenticate_credentials`. The user repository, the password hasher
-- and pyotp are interfaces; random ids and the time are arguments.
use auth_n_z.Common.{
  ltb, if◌then◌else◌, is_some, or_default, ℕ, ◌+◌, ◌-◌, ◌/◌, max, String, ◌⊎◌, inl, inr, Bool, true,
  false, not, ◌&&◌, Option, none, some, List, [], ◌∷◌, ◌==◌,
}
use auth_n_z.Common.Redis.{Redis}
use auth_n_z.Common.Jwt.{Jwt, Claims, texts}
use auth_n_z.Identity.{User, Metadata}
use auth_n_z.Token.Claims.{create_access_token, create_refresh_token}
use auth_n_z.Session.Store.{SessionRedis, Sessions, create_session}
use auth_n_z.Device.Service.{Devices, DeviceInfo, verify_trusted_device}
use auth_n_z.Auth.State.{Auth, Challenge, Json}
use auth_n_z.Auth.Challenges.{save_mfa_challenge}
use auth_n_z.Auth.Lockout.{
  Attempt, check_account_lockout, record_failed_attempt, clear_failed_attempts,
}

pub record UserRepo : Type 1 where
  pub Db : Type 0
  pub get_by_id : String → Db → Option User
  pub get_by_identifier : String → Db → Option User
  -- `update_user(id, {"hashed_password": …})`
  pub set_password : String → String → Db → Db
  -- `update_user(id, {"metadata": …})`
  pub set_metadata : String → Metadata → Db → Db

pub record Hasher : Type 0 where
  pub verify : String → String → Bool
  pub needs_rehash : String → Bool
  pub hash : String → String

pub record Services : Type 1 where
  pub R : Redis
  pub S : SessionRedis
  pub U : UserRepo
  pub hasher : Hasher
  pub jwt : Jwt
  pub json : Json
  pub uuid : String → Option String
  pub sha256 : String → String
  -- pyotp: the time, the secret, the code and the window
  pub totp : ℕ → String → String → ℕ → Option Bool

-- the random texts of one call
pub record Fresh : Type 0 where
  pub challenge_id : String
  pub access_jti : String
  pub refresh_jti : String
  pub family_id : String
  pub session_id : String
  pub device_id : String
  pub device_token : String

pub record Success : Type 0 where
  pub user_id : String
  pub access_token : String
  pub refresh_token : String
  pub session_id : String
  pub roles : List String
  pub mfa_skipped : Bool
  pub trusted_device : Option DeviceInfo
  pub raw_device_token : Option String

-- the results of `authenticate_credentials` and `complete_mfa_challenge`
pub data Login : Type 0 where
  failed : (reason : String) → Login
  wrong_password : (attempts remaining_attempts : ℕ) → Login
  -- with the number of failed logins, where this login was one
  locked :
      (user_id : String) (lockout_seconds lockout_minutes : ℕ) (attempts : Option ℕ)
      (newly_locked : Bool)
      → Login
  mfa_required : (user_id challenge_id : String) → Login
  -- the ValueError of `initiate_mfa_challenge`
  value_error : (message : String) → Login
  success : Success → Login

-- `max(1, (seconds + 59) // 60)`
unfoldable pub lockout_minutes : ℕ → ℕ
lockout_minutes seconds = max 1 ((seconds + 59) / 60)

module _ (V : Services) where
  pub record World : Type 0 where
    pub users : V.U.Db
    pub auth : Auth V.R
    pub sessions : Sessions V.S
    pub devices : Devices

  -- `initiate_mfa_challenge`; the other result is the message of a ValueError
  unfoldable pub initiate_mfa_challenge :
      (now : ℕ) (challenge_id user_id challenge_type : String)
      → World
      → (String ⊎ Challenge) × World
  initiate_mfa_challenge now challenge_id user_id challenge_type w =
      let challenge : Challenge = record {
        user_id = user_id;
        challenge_type = challenge_type;
        created_at = now;
        expires_at = now + 300;
        attempts = 0;
      } in
      elim (V.U.get_by_id user_id w.users) [
        | none ↦ (inl "User not found", w)
        | some user ↦
            if user.metadata.mfa_secret == ""
            then (inl "User does not have MFA configured", w)
            else (
              inr challenge,
              record w { auth = save_mfa_challenge V.R V.json challenge_id challenge 300 w.auth },
            )
      ]

  -- the two tokens and the session of a login
  unfoldable pub log_in :
      (now : ℕ)
      → Fresh
      → User
      → (mfa_skipped : Bool) → Option DeviceInfo
      → Option String
      → World
      → Success × World
  log_in now fresh user mfa_skipped device raw_device_token w =
      let claims : Claims = ("roles", texts user.roles) ∷ [] in
      (
        record {
          user_id = user.id;
          access_token = create_access_token V.jwt now 900 fresh.access_jti user.id claims;
          refresh_token =
              create_refresh_token V.jwt now 604800 fresh.refresh_jti fresh.family_id user.id none
                claims;
          session_id = fresh.session_id;
          roles = user.roles;
          mfa_skipped = mfa_skipped;
          trusted_device = device;
          raw_device_token = raw_device_token;
        },
        record w {
          sessions = create_session V.S fresh.session_id user.id now claims 3600 w.sessions;
        },
      )

  unfoldable pub has_mfa : User → Bool
  has_mfa user = user.metadata.mfa_enabled && not (user.metadata.mfa_secret == "")

  -- the call of `verify_trusted_device`, where a token is given
  unfoldable pub check_trust :
      (now : ℕ)
      → User
      → (device_token user_agent ip : Option String) → World
      → Option DeviceInfo × World
  check_trust now user device_token user_agent ip w =
      let (info, ds) =
        verify_trusted_device V.uuid V.sha256 now user.id (or_default device_token "") user_agent ip
          w.devices in
      if or_default device_token "" == "" then (none, w) else (info, record w { devices = ds })

  -- `authenticate_credentials` once the password is verified and the failed logins are cleared
  unfoldable pub finish_login :
      (now : ℕ)
      → Fresh
      → User
      → (device_token user_agent ip : Option String) → World
      → Login × World
  finish_login now fresh user device_token user_agent ip w =
      let (trusted, w') = check_trust now user device_token user_agent ip w in
      let (asked, w'') = initiate_mfa_challenge now fresh.challenge_id user.id "totp" w' in
      if not (has_mfa user)
      then (let (done, v) = log_in now fresh user false none none w in (success done, v))
      else if is_some trusted
      then (let (done, v) = log_in now fresh user true trusted none w' in (success done, v))
      else elim asked [
        | inl message ↦ (value_error message, w'')
        | inr _ ↦ (mfa_required user.id fresh.challenge_id, w'')
      ]

  -- the rehash of a verified password
  unfoldable pub rehash : User → String → World → World
  rehash user plain_password w =
      if V.hasher.needs_rehash user.hashed_password
      then record w { users = V.U.set_password user.id (V.hasher.hash plain_password) w.users }
      else w

  -- the answer to a wrong password
  unfoldable pub refuse : User → Attempt → Login
  refuse user attempt =
      if attempt.locked
      then locked user.id attempt.lockout_seconds (lockout_minutes attempt.lockout_seconds)
          (some attempt.attempts) attempt.newly_locked
      else wrong_password attempt.attempts (5 - attempt.attempts)

  -- `authenticate_credentials` of an account that is active and not locked
  unfoldable pub check_password :
      (now : ℕ)
      → Fresh
      → User
      → (plain_password : String) (device_token user_agent ip : Option String) → World
      → Login × World
  check_password now fresh user plain_password device_token user_agent ip w =
      let (attempt, failing) = record_failed_attempt V.R now user.id w.auth in
      let cleared = clear_failed_attempts V.R user.id w.auth in
      if not (V.hasher.verify plain_password user.hashed_password)
      then (refuse user attempt, record w { auth = failing })
      else finish_login now fresh user device_token user_agent ip
          (rehash user plain_password (record w { auth = cleared }))

  -- `authenticate_credentials`
  unfoldable pub authenticate_credentials :
      (now : ℕ)
      → Fresh
      → (identifier plain_password : String) (device_token user_agent ip : Option String) → World
      → Login × World
  authenticate_credentials now fresh identifier plain_password device_token user_agent ip w =
      elim (V.U.get_by_identifier identifier w.users) [
        | none ↦ (failed "INVALID_CREDENTIALS", w)
        | some user ↦
            let (remaining, s) = check_account_lockout V.R now user.id w.auth in
            let seconds = or_default remaining 0 in
            if not user.is_active
            then (failed "ACCOUNT_INACTIVE", w)
            else if ltb 0 seconds
            then (
              locked user.id seconds (lockout_minutes seconds) none false,
              record w { auth = s },
            )
            else check_password now fresh user plain_password device_token user_agent ip
                (record w { auth = s })
      ]
