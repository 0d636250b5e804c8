-- ===== src/Policy/Cache.antt =====
-- The decision cache of `DistributedPolicyManager`: Redis first, then the process's own dictionary.
use auth_n_z.Common.{
  ltb, if◌then◌else◌, Dict, lookup, insert, remove, lookup-insert, ℕ, ◌+◌, String, ◌≡◌, ◌≢◌, Bool,
  Option, none, some, List, [], ◌∷◌, arith, ◌==◌, eq_iff, eq_refl,
}
use auth_n_z.Common.Redis.{Redis, update_db}

module _ (R : Redis) where
  -- `self.r`, `self._in_memory_cache` and `self.cache_ttl`; `none` is a manager without Redis
  pub record Cache : Type 0 where
    pub redis : Option R.Db
    pub in_memory : Dict (Bool × ℕ)
    pub cache_ttl : ℕ

  -- the part of `get_cached_decision` behind Redis
  local_decision : ℕ → String → Cache → Option Bool × Cache
  local_decision now key c = elim (lookup key c.in_memory) [
    | none ↦ (none, c)
    | some (decision, exp) ↦
        if ltb now exp
        then (some decision, c)
        else (none, record c { in_memory = remove key c.in_memory })
  ]

  -- the answer of Redis, if it has the key and the call did not raise
  redis_decision : Option (Option String) → Option Bool
  redis_decision (some (some val)) = some (val == "1")
  redis_decision _ = none

  ask_redis : String → Cache → Option Bool × Cache
  unfolding redis_decision
  ask_redis key c = elim c.redis [
    | none ↦ (none, c)
    | some db ↦
        let (answer, db') = R.get key db in (redis_decision answer, record c { redis = some db' })
  ]

  -- `get_cached_decision`
  unfoldable pub get_cached_decision : ℕ → String → Cache → Option Bool × Cache
  unfolding ask_redis local_decision
  get_cached_decision now key c =
      let (found, c') = ask_redis key c in
      elim found [ some decision ↦ (some decision, c') | none ↦ local_decision now key c' ]

  abbrev verdict : Bool → String
  verdict decision = if decision then "1" else "0"

  -- `cache_decision`
  unfoldable pub cache_decision : ℕ → String → Bool → Cache → Cache
  cache_decision now key decision c = record {
    redis = update_db (λ db. (R.set key (verdict decision) c.cache_ttl db).1) c.redis;
    in_memory = insert key (decision, now + c.cache_ttl) c.in_memory;
    cache_ttl = c.cache_ttl;
  }

  -- `invalidate_cache`: both branches on `user_id` delete every key
  delete_all : Option (List String) × R.Db → R.Db
  delete_all (some (k ∷ ks), db) = (R.delete (k ∷ ks) db).1
  delete_all (_, db) = db

  unfoldable pub invalidate_cache : Option String → Cache → Cache
  unfolding delete_all
  invalidate_cache user_id c = record c {
    redis = update_db (λ db. delete_all (R.keys "authnz:perm_cache:*" db)) c.redis;
    in_memory = [];
  }

  -- Without Redis a cached decision is what a lookup returns until its time is over, and then
  -- nothing is; the decisions under other keys are not changed.
  pub get-cache :
      (now later : ℕ) (key other : String) (decision : Bool) (c : Cache)
      → c.redis ≡ none
      → (get_cached_decision later key (cache_decision now key decision c)).0
          ≡ (if ltb later (now + c.cache_ttl) then some decision else none)
        × (key ≢ other
            → (get_cached_decision later other (cache_decision now key decision c)).0
              ≡ (get_cached_decision later other c).0)
  unfolding get_cached_decision cache_decision
  get-cache now later key other decision c off = (
    ground (arith, lookup-insert key key (decision, now + c.cache_ttl) c.in_memory, eq_refl key),
    λ ne. ground (
      arith,
      lookup-insert key other (decision, now + c.cache_ttl) c.in_memory,
      eq_iff key other,
    ),
  )

  -- After an invalidation the process's own cache answers nothing, for any user and any key.
  pub get-invalidate :
      (now : ℕ) (user_id : Option String) (key : String) (c : Cache)
      → c.redis ≡ none
      → (get_cached_decision now key (invalidate_cache user_id c)).0 ≡ none
  unfolding get_cached_decision invalidate_cache lookup
  get-invalidate now user_id key c off = rw off
