-- ===== src/Session/Memory.antt =====
-- The sessions held in memory, where the store has no Redis client.
use auth_n_z.Common.{
  if◌then◌else◌, is_some, Dict, lookup, insert, remove, lookup-insert, lookup-remove, ℕ, String,
  ◌≡◌, refl, none, some, arith, ◌==◌,
}
use auth_n_z.Common.Jwt.{Claim}
use auth_n_z.Session.Store.{
  SessionRedis, Sessions, create_session, get_session, delete_session, on_redis,
}

module _ (R : SessionRedis) where
  get_in_memory :
      (id : String) (s : Sessions R)
      → s.redis ≡ none
      → get_session R id s ≡ (lookup id s.in_memory, s)
  unfolding get_session on_redis
  get_in_memory id s off = ground arith

  created_in_memory :
      (id user_id : String) (now : ℕ) (fields : Dict Claim) (ttl : ℕ) (s : Sessions R)
      → s.redis ≡ none
      → let s' = create_session R id user_id now fields ttl s in
        (s'.redis ≡ none)
        × (s'.in_memory
            ≡ insert id
                (record { user_id = user_id; created_at = now; fields = fields })
                s.in_memory)
  unfolding create_session on_redis
  created_in_memory id user_id now fields ttl s off = ground arith

  -- Without Redis, after a session is created, `get_session` finds it under its id with the user,
  -- the time and the data that it was created with, and finds under any other id what it found
  -- before.
  pub get_session-create_session :
      (id user_id other : String) (now : ℕ) (fields : Dict Claim) (ttl : ℕ) (s : Sessions R)
      → s.redis ≡ none
      → (get_session R other (create_session R id user_id now fields ttl s)).0 ≡ (
          if id == other
          then some (record { user_id = user_id; created_at = now; fields = fields })
          else (get_session R other s).0)
  get_session-create_session id user_id other now fields ttl s off =
      let s' = create_session R id user_id now fields ttl s in
      let (still, held) = created_in_memory id user_id now fields ttl s off in
      rw (get_in_memory other s off, get_in_memory other s' still, held)
        (lookup-insert id other (record { user_id = user_id; created_at = now; fields = fields })
          s.in_memory)

  deleted_in_memory :
      (id : String) (s : Sessions R)
      → s.redis ≡ none
      → let (existed, s') = delete_session R id s in
        (existed ≡ is_some (lookup id s.in_memory))
        × (s'.redis ≡ none)
        × (s'.in_memory ≡ remove id s.in_memory)
  unfolding delete_session get_session on_redis
  deleted_in_memory id s off = ground arith

  -- Without Redis, `delete_session` says whether the session was there; after it `get_session`
  -- finds nothing under the id, and under any other id what it found before.
  pub get_session-delete_session :
      (id other : String) (s : Sessions R)
      → s.redis ≡ none
      → let (existed, s') = delete_session R id s in
        (existed ≡ is_some (get_session R id s).0)
        × ((get_session R other s').0 ≡ (if id == other then none else (get_session R other s).0))
  get_session-delete_session id other s off =
      let s' = (delete_session R id s).1 in
      let (existed, still, held) = deleted_in_memory id s off in
      (
        rw (existed, get_in_memory id s off) refl,
        rw (get_in_memory other s' still, held, get_in_memory other s off)
            (lookup-remove id other s.in_memory),
      )
