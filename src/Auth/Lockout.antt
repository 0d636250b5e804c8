-- ===== src/Auth/Lockout.antt =====
-- Lockout of an account after failed logins.
use auth_n_z.Common.{
  ltb, nat_eq, if◌then◌else◌, or_default, lookup, insert, remove, ℕ, ◌+◌, ◌-◌, String, Bool, true,
  false, ◌||◌, Option, none, some, [], ◌∷◌, text_append, show_nat,
}
use auth_n_z.Common.Redis.{Redis}
use auth_n_z.Auth.State.{Auth, call}

abbrev pub lock_key : String → String
lock_key user_id = text_append "lockout:" user_id

abbrev pub fail_key : String → String
fail_key user_id = text_append "failed_logins:" user_id

-- the answer of `_record_failed_attempt`
pub record Attempt : Type 0 where
  pub locked : Bool
  pub newly_locked : Bool
  pub attempts : ℕ
  pub lockout_seconds : ℕ

-- the seconds of lockout after a number of failed logins
unfoldable pub lockout_seconds : ℕ → ℕ
lockout_seconds attempts = if ltb attempts 5 then 0 else if ltb attempts 10 then 900 else 3600

module _ (R : Redis) where
  -- the part of `_check_account_lockout` that reads the memory
  unfoldable pub lockout_in_memory : ℕ → String → Auth R → Option ℕ × Auth R
  lockout_in_memory now user_id s =
      let lock_exp = or_default (lookup user_id s.lockouts) 0 in
      if nat_eq lock_exp 0
      then (none, s)
      else if ltb now lock_exp
      then (some (lock_exp - now), s)
      else (none, record s { lockouts = remove user_id s.lockouts })

  -- `_check_account_lockout`
  unfoldable pub check_account_lockout : ℕ → String → Auth R → Option ℕ × Auth R
  check_account_lockout now user_id s =
      let (ttl, s') = call R (R.ttl (lock_key user_id)) s in
      if ltb 0 (or_default ttl 0) then (ttl, s') else lockout_in_memory now user_id s'

  unfoldable pub count_in_memory : String → Auth R → ℕ × Auth R
  count_in_memory user_id s =
      let attempts = or_default (lookup user_id s.failed_attempts) 0 + 1 in
      (attempts, record s { failed_attempts = insert user_id attempts s.failed_attempts })

  -- `r.incr(fail_key)`, and `r.expire(fail_key, 300)` for the first; `none` if a call raised
  unfoldable pub incr_in_window : String → R.Db → Option ℕ × R.Db
  incr_in_window user_id db =
      let (attempts, db') = R.incr (fail_key user_id) db in
      if nat_eq (or_default attempts 0) 1
      then (let (done, db'') = R.expire (fail_key user_id) 300 db' in
          (elim done [ none ↦ none | some _ ↦ attempts ], db''))
      else (attempts, db')

  -- the count of `_record_failed_attempt`
  unfoldable pub count_attempt : String → Auth R → ℕ × Auth R
  count_attempt user_id s =
      let (attempts, s') = call R (incr_in_window user_id) s in
      elim attempts [ none ↦ count_in_memory user_id s' | some n ↦ (n, s') ]

  -- the lockout of `_record_failed_attempt`
  unfoldable pub lock_out : ℕ → String → ℕ → Auth R → Attempt × Auth R
  lock_out now user_id attempts s =
      let seconds = lockout_seconds attempts in
      let s' = (call R (R.set (lock_key user_id) (show_nat attempts) seconds) s).1 in
      if ltb attempts 5
      then (
        record { locked = false; newly_locked = false; attempts = attempts; lockout_seconds = 0 },
        s,
      )
      else (
        record {
          locked = true;
          newly_locked = nat_eq attempts 5 || nat_eq attempts 10;
          attempts = attempts;
          lockout_seconds = seconds;
        },
        record s' { lockouts = insert user_id (now + seconds) s'.lockouts },
      )

  -- `_record_failed_attempt`
  unfoldable pub record_failed_attempt : ℕ → String → Auth R → Attempt × Auth R
  record_failed_attempt now user_id s =
      let (attempts, s') = count_attempt user_id s in lock_out now user_id attempts s'

  -- `_clear_failed_attempts`
  unfoldable pub clear_failed_attempts : String → Auth R → Auth R
  clear_failed_attempts user_id s =
      let s' = (call R (R.delete (fail_key user_id ∷ lock_key user_id ∷ [])) s).1 in
      record s' {
        failed_attempts = remove user_id s'.failed_attempts;
        lockouts = remove user_id s'.lockouts;
      }

  -- `unlock_account`
  unfoldable pub unlock_account : String → Auth R → Bool × Auth R
  unlock_account user_id s = (true, clear_failed_attempts user_id s)
