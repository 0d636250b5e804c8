-- ===== src/OAuth/State.antt =====
-- `OAuthManager`, less its providers: the states that a login with a provider must bring
-- back. A state's data is of any type; its JSON text is written and read by parameters.
use auth_n_z.Common.{
  if◌then◌else◌, is_some, or_default, Dict, lookup, insert, remove, ℕ, String, Option, none, some,
  [], ◌∷◌, ◌==◌, text_append,
}
use auth_n_z.Common.Redis.{Redis}

module _ (R : Redis) (Data : Type 0) where
  pub record Json : Type 0 where
    pub dumps : Data → String
    pub loads : String → Option Data

  pub record Manager : Type 0 where
    pub redis : Option R.Db
    pub states : Dict Data

  abbrev pub state_key : String → String
  state_key state = text_append "oauth_state:" state

  -- `save_state`
  unfoldable pub save_state : Json → String → Data → ℕ → Manager → Manager
  save_state json state value ttl s =
      let in_memory = λ (t : Manager). record t { states = insert state value t.states } in
      elim s.redis [
        | none ↦ in_memory s
        | some db ↦
            let (done, db') = R.set (state_key state) (json.dumps value) ttl db in
            let s' = record s { redis = some db' } in if is_some done then s' else in_memory s'
      ]

  -- the part of `consume_state` that asks Redis; `none` where it goes on to the memory
  unfoldable pub consume_in_redis : Json → String → R.Db → Option Data × R.Db
  consume_in_redis json state db =
      let (raw, db') = R.get (state_key state) db in
      let text = or_default (or_default raw none) "" in
      let (deleted, db'') = R.delete (state_key state ∷ []) db' in
      if text == ""
      then (none, db')
      else elim deleted [ none ↦ (none, db'') | some n ↦ (json.loads text, db'') ]

  -- `self._in_memory_states.pop(state, None)`
  unfoldable pub pop_state : String → Manager → Option Data × Manager
  pop_state state s = (lookup state s.states, record s { states = remove state s.states })

  -- `consume_state`
  unfoldable pub consume_state : Json → String → Manager → Option Data × Manager
  consume_state json state s = elim s.redis [
    | none ↦ pop_state state s
    | some db ↦
        let (found, db') = consume_in_redis json state db in
        let s' = record s { redis = some db' } in
        elim found [ none ↦ pop_state state s' | some value ↦ (some value, s') ]
  ]
