-- ===== src/OAuth/Once.antt =====
-- A state is consumed once.
use auth_n_z.Common.{
  insert, lookup-insert, lookup-remove, ℕ, String, ◌≡◌, ◌≢◌, none, some, arith, eq_iff, eq_refl,
}
use auth_n_z.Common.Redis.{Redis}
use auth_n_z.OAuth.State.{Json, Manager, save_state, pop_state, consume_state}

module _ (R : Redis) (Data : Type 0) (json : Json R Data) where
  -- Without Redis, a state that was saved is consumed with its data, the same state is refused the
  -- next time, and any other state is consumed after the two calls as it would have been before.
  pub consume_state-save_state :
      (state : String) (value : Data) (ttl : ℕ) (s : Manager R Data)
      → s.redis ≡ none
      → let (first, s') =
          consume_state R Data json state (save_state R Data json state value ttl s) in
        (first ≡ some value)
        × ((consume_state R Data json state s').0 ≡ none)
        × ((other : String)
            → other ≢ state
            → (consume_state R Data json other s').0 ≡ (consume_state R Data json other s).0)
  unfolding consume_state save_state pop_state
  consume_state-save_state state value ttl s off =
      let saved = insert state value s.states in
      (
        ground (arith, lookup-insert state state value s.states, eq_refl state),
        ground (arith, lookup-remove state state saved, eq_refl state),
        λ other differs. ground (
          arith,
          lookup-remove state other saved,
          lookup-insert state other value s.states,
          eq_iff state other,
        ),
      )
