-- ===== src/Common/Redis.antt =====
-- The Redis client that the services are given. Redis is not part of this repository: the type of
-- its databases and its commands are parameters, and `none` is a call that raised. A call that
-- raises may have changed the database.
use Prim.Native.Nat.{ℕ}
use Prim.Native.String.{String}
use mathlib.Core.Bool.{Bool}
use mathlib.Core.Option.{Option, none, some}
use mathlib.Core.List.{List}

pub record Redis : Type 1 where
  pub Db : Type 0
  pub get : String → Db → Option (Option String) × Db
  pub exists : String → Db → Option Bool × Db
  -- `set(key, value, ex=ttl)`
  pub set : String → String → ℕ → Db → Option (Unit {0}) × Db
  -- `delete(*keys)`, with the number of keys that it removed
  pub delete : List String → Db → Option ℕ × Db
  -- `keys(pattern)`
  pub keys : String → Db → Option (List String) × Db
  pub incr : String → Db → Option ℕ × Db
  pub expire : String → ℕ → Db → Option Bool × Db
  -- the seconds that are left to a key, 0 where Redis answers a negative number
  pub ttl : String → Db → Option ℕ × Db

-- a call whose result is dropped, where there is a client
abbrev pub update_db : {Db : Type 0} → (Db → Db) → Option Db → Option Db
update_db f none = none
update_db f (some db) = some (f db)
