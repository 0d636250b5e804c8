-- ===== src/Auth/Locked.antt =====
-- When an account is locked.
use auth_n_z.Common.{
  ltb, leb, if◌then◌else◌, or_default, length, lookup, remove, lookup-insert, lookup-remove, ℕ, ◌+◌,
  ◌-◌, ◌<◌, String, ◌≡◌, refl, ap, ◌∙◌, ◌≢◌, true, none, some, List, [], ◌∷◌, arith, eq_iff,
  eq_refl, show_nat,
}
use auth_n_z.Common.Redis.{Redis}
use auth_n_z.Auth.State.{Auth, call, call-frame, call_off}
use auth_n_z.Auth.Lockout.{
  lock_key, fail_key, lockout_seconds, lockout_in_memory, check_account_lockout, count_in_memory,
  incr_in_window, count_attempt, lock_out, record_failed_attempt, clear_failed_attempts,
}

module _ (R : Redis) where
  in_memory_until :
      (later until : ℕ) (user_id : String) (s : Auth R)
      → lookup user_id s.lockouts ≡ some until
      → later < until
      → (lockout_in_memory R later user_id s).0 ≡ some (until - later)
  unfolding lockout_in_memory
  in_memory_until later until user_id s there early = ground arith

  still_locked :
      (later until : ℕ) (user_id : String) (s : Auth R)
      → lookup user_id s.lockouts ≡ some until
      → later < until
      → ltb 0 (or_default (check_account_lockout R later user_id s).0 0) ≡ true
  unfolding check_account_lockout
  still_locked later until user_id s there early =
      let s' = (call R (R.ttl (lock_key user_id)) s).1 in
      let (_, _, same) = call-frame R (R.ttl (lock_key user_id)) s in
      ground
        (arith, in_memory_until later until user_id s' (ap (lookup user_id) same ∙ there) early)

  locked_until :
      (now attempts : ℕ) (user_id : String) (s : Auth R)
      → let (attempt, s') = lock_out R now user_id attempts s in
        attempt.locked ≡ true → lookup user_id s'.lockouts ≡ some (now + attempt.lockout_seconds)
  unfolding lock_out
  locked_until now attempts user_id s locked =
      let seconds = lockout_seconds attempts in
      let s' = (call R (R.set (lock_key user_id) (show_nat attempts) seconds) s).1 in
      ground (arith, lookup-insert user_id user_id (now + seconds) s'.lockouts, eq_refl user_id)

  -- With or without Redis, and whichever of its calls raise, once a failed login is answered with a
  -- lockout, the account is found locked until the seconds of that answer are over.
  pub check_account_lockout-record_failed_attempt :
      (now later : ℕ) (user_id : String) (s : Auth R)
      → let (attempt, s') = record_failed_attempt R now user_id s in
        attempt.locked ≡ true
        → later < now + attempt.lockout_seconds
        → ltb 0 (or_default (check_account_lockout R later user_id s').0 0) ≡ true
  unfolding record_failed_attempt
  check_account_lockout-record_failed_attempt now later user_id s locked early =
      let (attempts, s') = count_attempt R user_id s in
      let (attempt, s'') = lock_out R now user_id attempts s' in
      still_locked later (now + attempt.lockout_seconds) user_id s''
        (locked_until now attempts user_id s' locked) early

  counted_in_memory :
      (user_id : String) (s : Auth R)
      → s.redis ≡ none
      → count_attempt R user_id s ≡ count_in_memory R user_id s
  unfolding count_attempt
  counted_in_memory user_id s off =
      let off' = call_off R (incr_in_window R user_id) s off in rw (count_attempt, off', off') refl

  locked_in_memory :
      (now attempts : ℕ) (user_id : String) (s : Auth R)
      → s.redis ≡ none
      → let (attempt, s') = lock_out R now user_id attempts s in
        (attempt.attempts ≡ attempts)
        × (attempt.locked ≡ leb 5 attempts)
        × (attempt.lockout_seconds ≡ lockout_seconds attempts)
        × (s'.redis ≡ none)
        × (s'.failed_attempts ≡ s.failed_attempts)
  unfolding lock_out lockout_seconds
  locked_in_memory now attempts user_id s off =
      let seconds = lockout_seconds attempts in
      let off' = call_off R (R.set (lock_key user_id) (show_nat attempts) seconds) s off in
      ground arith

  -- failed logins of one account, at these times
  pub fail_at : List ℕ → String → Auth R → Auth R
  fail_at [] user_id s = s
  fail_at (now ∷ times) user_id s = fail_at times user_id (record_failed_attempt R now user_id s).1

  recorded_in_memory :
      (now : ℕ) (user_id : String) (s : Auth R)
      → s.redis ≡ none
      → let attempts = or_default (lookup user_id s.failed_attempts) 0 + 1 in
        let (attempt, s') = record_failed_attempt R now user_id s in
        (attempt.attempts ≡ attempts)
        × (attempt.locked ≡ leb 5 attempts)
        × (attempt.lockout_seconds ≡ lockout_seconds attempts)
        × (s'.redis ≡ none)
        × (lookup user_id s'.failed_attempts ≡ some attempts)
  unfolding record_failed_attempt count_in_memory
  recorded_in_memory now user_id s off =
      let attempts = or_default (lookup user_id s.failed_attempts) 0 + 1 in
      let s' = (count_in_memory R user_id s).1 in
      let (number, locked, seconds, still, same) = locked_in_memory now attempts user_id s' off in
      rw (counted_in_memory user_id s off) (
        number,
        locked,
        seconds,
        still,
        ap (lookup user_id) same
            ∙ ground
                (arith, lookup-insert user_id user_id attempts s.failed_attempts, eq_refl user_id),
      )

  failed_before :
      (times : List ℕ) (user_id : String) (s : Auth R)
      → s.redis ≡ none
      → let s' = fail_at times user_id s in
        (s'.redis ≡ none)
        × (or_default (lookup user_id s'.failed_attempts) 0
            ≡ or_default (lookup user_id s.failed_attempts) 0 + length times)
  unfolding fail_at
  failed_before [] user_id s off = (off, ground arith)
  failed_before (now ∷ times) user_id s off =
      let (_, _, _, still, known) = recorded_in_memory now user_id s off in
      let (ends, counted) =
        failed_before times user_id (record_failed_attempt R now user_id s).1 still in
      (ends, ground arith)

  -- Without Redis, for an account that has no failed logins, the login that fails after any number
  -- of failed ones has the number of that login, however far they lie apart; it is answered with a
  -- lockout exactly from the fifth, of 900 seconds, and of 3600 from the tenth.
  pub record_failed_attempt-fail_at :
      (times : List ℕ) (now : ℕ) (user_id : String) (s : Auth R)
      → s.redis ≡ none
      → lookup user_id s.failed_attempts ≡ none
      → let attempt = (record_failed_attempt R now user_id (fail_at times user_id s)).0 in
        (attempt.attempts ≡ length times + 1)
        × (attempt.locked ≡ leb 5 (length times + 1))
        × (attempt.lockout_seconds
            ≡ (if ltb (length times) 4 then 0 else if ltb (length times) 9 then 900 else 3600))
  unfolding lockout_seconds
  record_failed_attempt-fail_at times now user_id s off fresh =
      let (still, counted) = failed_before times user_id s off in
      let (number, locked, seconds, _, _) =
        recorded_in_memory now user_id (fail_at times user_id s) still in
      ground arith

  cleared_in_memory :
      (user_id : String) (s : Auth R)
      → s.redis ≡ none
      → let s' = clear_failed_attempts R user_id s in
        (s'.redis ≡ none)
        × (s'.failed_attempts ≡ remove user_id s.failed_attempts)
        × (s'.lockouts ≡ remove user_id s.lockouts)
  unfolding clear_failed_attempts
  cleared_in_memory user_id s off =
      let off' = call_off R (R.delete (fail_key user_id ∷ lock_key user_id ∷ [])) s off in
      (
        ap (λ p. p.1.redis) off' ∙ off,
        ap (λ p. remove user_id p.1.failed_attempts) off',
        ap (λ p. remove user_id p.1.lockouts) off',
      )

  check_unlocked :
      (now : ℕ) (user_id : String) (s : Auth R)
      → s.redis ≡ none
      → lookup user_id s.lockouts ≡ none
      → (check_account_lockout R now user_id s).0 ≡ none
  unfolding check_account_lockout lockout_in_memory call
  check_unlocked now user_id s off free = ground arith

  -- After a login or an unlocking, without Redis, the account is not locked, its failed logins count
  -- from one again, and the other accounts' counts and lockouts are as they were.
  pub clear_failed_attempts-unlocks :
      (now : ℕ) (user_id other : String) (s : Auth R)
      → s.redis ≡ none
      → let s' = clear_failed_attempts R user_id s in
        ((check_account_lockout R now user_id s').0 ≡ none)
        × ((count_attempt R user_id s').0 ≡ 1)
        × (user_id ≢ other
            → (lookup other s'.lockouts ≡ lookup other s.lockouts)
              × (lookup other s'.failed_attempts ≡ lookup other s.failed_attempts))
  unfolding count_in_memory
  clear_failed_attempts-unlocks now user_id other s off =
      let s' = clear_failed_attempts R user_id s in
      let (still, failed, locked) = cleared_in_memory user_id s off in
      let no_count = ap (lookup user_id) failed ∙ lookup-remove user_id user_id s.failed_attempts in
      let no_lock = ap (lookup user_id) locked ∙ lookup-remove user_id user_id s.lockouts in
      (
        check_unlocked now user_id s' still (ground (arith, no_lock, eq_refl user_id)),
        rw (counted_in_memory user_id s' still) (ground (arith, no_count, eq_refl user_id)),
        λ differs. (
          ap (lookup other) locked
              ∙ ground (arith, lookup-remove user_id other s.lockouts, eq_iff user_id other),
          ap (lookup other) failed
              ∙ ground (arith, lookup-remove user_id other s.failed_attempts, eq_iff user_id other),
        ),
      )
