-- ===== src/Session/Ended.antt =====
-- `delete_all_user_sessions` without a session to keep.
use auth_n_z.Common.{
  Option-cases, lookup, contains, String, ◌≡◌, refl, ap, ◌≢◌, inl, inr, none, some, List, [], ◌∷◌,
  arith,
}
use auth_n_z.Session.Store.{
  Session, SessionRedis, Sessions, all_but, delete_listed, delete_all_user_sessions,
}
use auth_n_z.Session.Index.{
  lookup-remove_all, lookup_of_removed, IsIndexed, on_redis-frame, listed_of_held,
}

all_but-none : (sids : List String) → all_but none sids ≡ sids
unfolding all_but
all_but-none [] = refl
all_but-none (sid ∷ sids) = ap (λ r. sid ∷ r) (all_but-none sids)

-- no session of the user is held in memory
unfoldable pub HoldsNone : (R : SessionRedis) → String → Sessions R → Type 0
HoldsNone R user_id s =
    (id : String) (held : Session) → lookup id s.in_memory ≡ some held → held.user_id ≢ user_id

module _ (R : SessionRedis) where
  pub delete_all_user_sessions-HoldsNone :
      (user_id : String) (s : Sessions R)
      → IsIndexed R s
      → HoldsNone R user_id (delete_all_user_sessions R user_id none s).1
  unfolding delete_all_user_sessions HoldsNone contains
  delete_all_user_sessions-HoldsNone user_id s ok =
      let (sessions, index) = on_redis-frame R (delete_listed R user_id none) s in
      elim (Option-cases (lookup user_id s.user_index)) [
        | inl unknown ↦
            rw (delete_all_user_sessions, index, unknown, sessions)
              (λ id held there own.
                let own_list = listed_of_held R s ok id user_id held there own in ground arith)
        | inr (sids, known) ↦
            rw (delete_all_user_sessions, index, known, sessions)
              (λ id held there own.
                let was = lookup_of_removed id (all_but none sids) s.in_memory held there in
                let own_list = listed_of_held R s ok id user_id held was own in
                ground
                  (arith, lookup-remove_all id (all_but none sids) s.in_memory, all_but-none sids))
      ]
