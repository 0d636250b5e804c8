-- ===== src/Auth/State.antt =====
-- What the authenticator keeps: the failed logins and the lockouts of the accounts, and the pending
-- challenges, in memory beside Redis. The keys that it uses in Redis are its own, so its database is
-- one beside that of the sessions. The JSON text of a challenge is written and read by parameters.
use auth_n_z.Common.{Dict, ℕ, String, ◌≡◌, refl, Option, none, some, arith}
use auth_n_z.Common.Redis.{Redis}

pub record Challenge : Type 0 where
  pub user_id : String
  pub challenge_type : String
  pub created_at : ℕ
  pub expires_at : ℕ
  pub attempts : ℕ

pub record Json : Type 0 where
  pub dumps : Challenge → String
  pub loads : String → Option Challenge

module _ (R : Redis) where
  pub record Auth : Type 0 where
    pub redis : Option R.Db
    pub pending : Dict Challenge
    pub failed_attempts : Dict ℕ
    pub lockouts : Dict ℕ

  -- a call on the client, if there is one
  unfoldable pub call : {A : Type 0} → (R.Db → Option A × R.Db) → Auth → Option A × Auth
  call f s = elim s.redis [
    | none ↦ (none, s)
    | some db ↦ let (answer, db') = f db in (answer, record s { redis = some db' })
  ]

  pub call-frame :
      {A : Type 0}
      → (f : R.Db → Option A × R.Db) (s : Auth)
      → let s' = (call f s).1 in
        (s'.pending ≡ s.pending)
        × (s'.failed_attempts ≡ s.failed_attempts)
        × (s'.lockouts ≡ s.lockouts)
  unfolding call
  call-frame f s = (ground arith, ground arith, ground arith)

  pub call_off :
      {A : Type 0} → (f : R.Db → Option A × R.Db) (s : Auth) → s.redis ≡ none → call f s ≡ (none, s)
  unfolding call
  call_off f s off = rw (off) refl
