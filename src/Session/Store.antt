-- ===== src/Session/Store.antt =====
-- `SessionStore`. The Redis commands that it makes are parameters, on an abstract database; `none`
-- is a call that raised. The JSON text of a session's data stands for the dictionary itself, and
-- the copies of its keys that `get_session` adds at the top level are left out.
use auth_n_z.Common.{
  ltb, nat_eq, if◌then◌else◌, is_some, or_default, length, Dict, lookup, insert, remove, add,
  discard, ℕ, ◌+◌, String, Bool, true, false, ◌||◌, Option, none, some, List, [], ◌∷◌, map, ◌==◌,
  text_append, text_or,
}
use auth_n_z.Common.Jwt.{Claim}

pub record Session : Type 0 where
  pub user_id : String
  pub created_at : ℕ
  pub fields : Dict Claim

pub record SessionRedis : Type 1 where
  pub Db : Type 0
  pub hset : String → Session → Db → Option (Unit {0}) × Db
  -- `hset(key, "data", …)`
  pub hset_data : String → Dict Claim → Db → Option (Unit {0}) × Db
  -- `hgetall`, where the empty hash of a missing key is `some none`
  pub hgetall : String → Db → Option (Option Session) × Db
  pub expire : String → ℕ → Db → Option Bool × Db
  pub sadd : String → String → Db → Option (Unit {0}) × Db
  pub srem : String → List String → Db → Option (Unit {0}) × Db
  pub smembers : String → Db → Option (List String) × Db
  pub delete : List String → Db → Option ℕ × Db

abbrev pub session_key : String → String
session_key id = text_append "session:" id

abbrev pub user_key : String → String
user_key id = text_append "user_sessions:" id

-- `current_data.update(session_data)`
unfoldable pub update_fields : Dict Claim → Dict Claim → Dict Claim
update_fields [] d = d
update_fields ((k, v) ∷ rest) d = update_fields rest (insert k v d)

-- the ids other than the one to keep
unfoldable pub all_but : Option String → List String → List String
all_but keep [] = []
all_but keep (sid ∷ sids) =
    let rest = all_but keep sids in
    if elim keep [ none ↦ false | some k ↦ sid == k ] then rest else sid ∷ rest

-- `pop` of each id
unfoldable pub remove_all {ℓ} : {V : Type ℓ} → List String → Dict V → Dict V
remove_all [] d = d
remove_all (k ∷ ks) d = remove_all ks (remove k d)

unfoldable pub discard_all : List String → List String → List String
discard_all [] s = s
discard_all (x ∷ xs) s = discard_all xs (discard x s)

module _ (R : SessionRedis) where
  pub record Sessions : Type 0 where
    pub redis : Option R.Db
    pub in_memory : Dict Session
    pub user_index : Dict (List String)

  -- a sequence of calls, which stops at the first one that raises
  abbrev pub Call : Type 0 → Type 0
  Call A = R.Db → Option A × R.Db

  infixl 5 ◌>>=◌
  abbrev ◌>>=◌ : {A B : Type 0} → Call A → (A → Call B) → Call B
  ◌>>=◌ m f db = let (r, db') = m db in elim r [ none ↦ (none, db') | some a ↦ f a db' ]

  -- calls on the client of the store, if there is one
  unfoldable pub on_redis : {A : Type 0} → Call A → Sessions → Option A × Sessions
  on_redis call s = elim s.redis [
    | none ↦ (none, s)
    | some db ↦ let (r, db') = call db in (r, record s { redis = some db' })
  ]

  abbrev pub index_of : String → Sessions → List String
  index_of user_id s = or_default (lookup user_id s.user_index) []

  unfoldable pub store_session : String → Session → ℕ → Call Bool
  store_session id session ttl = do
    done ← R.hset (session_key id) session
    in_time ← R.expire (session_key id) ttl
    listed ← R.sadd (user_key session.user_id) id
    R.expire (user_key session.user_id) ttl

  -- `create_session`, with the random id and the time
  unfoldable pub create_session :
      (id user_id : String) (now : ℕ) → Dict Claim → ℕ → Sessions → Sessions
  create_session id user_id now fields ttl s =
      let session : Session = record { user_id = user_id; created_at = now; fields = fields } in
      let (stored, s') = on_redis (store_session id session ttl) s in
      if is_some stored then s' else record s' {
        in_memory = insert id session s'.in_memory;
        user_index = insert user_id (add id (index_of user_id s')) s'.user_index;
      }

  -- `get_session`
  unfoldable pub get_session : String → Sessions → Option Session × Sessions
  get_session id s =
      let (answer, s') = on_redis (R.hgetall (session_key id)) s in
      elim answer [
        | some (some session) ↦ (some session, s')
        | some none ↦ (lookup id s'.in_memory, s')
        | none ↦ (lookup id s'.in_memory, s')
      ]

  -- the rest of `update_session_data` for a session that was found
  unfoldable pub write_fields : String → Dict Claim → Sessions → Bool × Sessions
  write_fields id fields s =
      let (done, s') = on_redis (R.hset_data (session_key id) fields) s in
      if is_some done then (true, s') else elim (lookup id s'.in_memory) [
        | none ↦ (false, s')
        | some held ↦ (
          true,
          record s' { in_memory = insert id (record held { fields = fields }) s'.in_memory },
        )
      ]

  -- `update_session_data`
  unfoldable pub update_session_data : String → Dict Claim → Sessions → Bool × Sessions
  update_session_data id more s =
      let (found, s') = get_session id s in
      elim found [
        | none ↦ (false, s')
        | some session ↦ write_fields id (update_fields more session.fields) s'
      ]

  -- `refresh_session_ttl`
  unfoldable pub refresh_session_ttl : String → ℕ → Sessions → Bool × Sessions
  refresh_session_ttl id ttl s =
      let (done, s') = on_redis (R.expire (session_key id) ttl) s in
      (or_default done (is_some (lookup id s'.in_memory)), s')

  unlist : Option String → String → Call (Unit {0})
  unlist none id db = (some tt, db)
  unlist (some user_id) id db =
      if user_id == "" then (some tt, db) else R.srem (user_key user_id) (id ∷ []) db

  unfoldable pub delete_stored : Option String → String → Call ℕ
  unfolding unlist
  delete_stored user_id id = do done ← unlist user_id id; R.delete (session_key id ∷ [])

  -- `self._in_memory_user_index[user_id].discard(session_id)`, where the user is known and listed
  unfoldable pub discard_from : Option String → String → Dict (List String) → Dict (List String)
  discard_from none id index = index
  discard_from (some user_id) id index = elim (lookup user_id index) [
    | none ↦ index
    | some sids ↦ if user_id == "" then index else insert user_id (discard id sids) index
  ]

  -- `delete_session`
  unfoldable pub delete_session : String → Sessions → Bool × Sessions
  delete_session id s =
      let (current, s') = get_session id s in
      let user_id : Option String = elim current [ none ↦ none | some c ↦ some c.user_id ] in
      let (deleted, s'') = on_redis (delete_stored user_id id) s' in
      elim deleted [
        | some n ↦ (ltb 0 n, s'')
        | none ↦ (
          is_some (lookup id s''.in_memory),
          record s'' {
            in_memory = remove id s''.in_memory;
            user_index = discard_from user_id id s''.user_index;
          },
        )
      ]

  -- the pipeline of `delete_all_user_sessions`, with the number of sessions that it deletes
  unfoldable pub delete_listed : String → Option String → Call ℕ
  delete_listed user_id keep = do
    sids ← R.smembers (user_key user_id)
    let doomed = all_but keep sids
    if nat_eq (length doomed) 0 then (λ db. (some 0, db)) else do
      gone ← R.delete (map session_key doomed)
      unlisted ← R.srem (user_key user_id) doomed
      emptied ←
          (if text_or keep "" == "" || nat_eq (length doomed) (length sids)
            then R.delete (user_key user_id ∷ [])
            else λ db. (some 0, db))
      λ db. (some (length doomed), db)

  -- `delete_all_user_sessions`: Redis, and the memory as well
  unfoldable pub delete_all_user_sessions : String → Option String → Sessions → ℕ × Sessions
  delete_all_user_sessions user_id keep s =
      let (count, s') = on_redis (delete_listed user_id keep) s in
      elim (lookup user_id s'.user_index) [
        | none ↦ (or_default count 0, s')
        | some sids ↦
            let doomed = all_but keep sids in
            (
              or_default count 0 + length doomed,
              record s' {
                in_memory = remove_all doomed s'.in_memory;
                user_index = insert user_id (discard_all doomed sids) s'.user_index;
              },
            )
      ]
