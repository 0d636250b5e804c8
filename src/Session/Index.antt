-- ===== src/Session/Index.antt =====
-- The index of a user's sessions, beside the sessions held in memory.
use auth_n_z.Common.{
  if◌then◌else◌, Bool-cases, is_some, or_default, Option-cases, Dict, lookup, insert, remove,
  lookup-insert, lookup-remove, contains, add, discard, contains-add, contains-discard, ℕ, String,
  ◌≡◌, refl, subst, inl, inr, true, false, not, ◌&&◌, Option, none, some, List, [], ◌∷◌, arith,
  ◌==◌, eq_iff, eq_refl,
}
use auth_n_z.Common.Jwt.{Claim}
use auth_n_z.Session.Store.{
  Session, SessionRedis, Sessions, remove_all, discard_all, all_but, discard_from, on_redis,
  store_session, delete_stored, delete_listed, session_key, index_of, Call, create_session,
  get_session, delete_session, delete_all_user_sessions,
}

pub lookup-remove_all :
    (j : String) (ks : List String) (d : Dict Session)
    → lookup j (remove_all ks d) ≡ (if contains j ks then none else lookup j d)
unfolding remove_all contains
lookup-remove_all j [] d = refl
lookup-remove_all j (k ∷ ks) d =
    ground (arith, lookup-remove_all j ks (remove k d), lookup-remove k j d, eq_iff k j)

pub lookup_of_removed :
    (j : String) (ks : List String) (d : Dict Session) (held : Session)
    → lookup j (remove_all ks d) ≡ some held
    → lookup j d ≡ some held
lookup_of_removed j ks d held there = ground (arith, lookup-remove_all j ks d)

contains-discard_all :
    (y : String) (xs s : List String)
    → contains y (discard_all xs s) ≡ (not (contains y xs) && contains y s)
unfolding discard_all contains
contains-discard_all y [] s = refl
contains-discard_all y (x ∷ xs) s =
    ground (arith, contains-discard_all y xs (discard x s), contains-discard x y s)

-- Every session is in the index, under its user.
unfoldable pub IsIndexedIn : Dict Session → Dict (List String) → Type 0
IsIndexedIn sessions index =
    (id : String) (held : Session)
    → lookup id sessions ≡ some held
    → contains id (or_default (lookup held.user_id index) []) ≡ true

module _ (sessions : Dict Session) (index : Dict (List String))
    (before : IsIndexedIn sessions index) where
  insert-IsIndexedIn :
      (id : String) (new : Session)
      → IsIndexedIn
          (insert id new sessions)
          (insert new.user_id (add id (or_default (lookup new.user_id index) [])) index)
  unfolding IsIndexedIn
  insert-IsIndexedIn id new other held there =
      let old = or_default (lookup new.user_id index) [] in
      ground (
        arith,
        before other held,
        lookup-insert id other new sessions,
        lookup-insert new.user_id held.user_id (add id old) index,
        eq_iff id other,
        eq_iff new.user_id held.user_id,
        contains-add id other old,
      )

  rewrite-IsIndexedIn :
      (id : String) (old new : Session)
      → lookup id sessions ≡ some old
      → old.user_id ≡ new.user_id
      → IsIndexedIn (insert id new sessions) index
  unfolding IsIndexedIn
  rewrite-IsIndexedIn id old new was same other held there = ground (
    arith,
    before other held,
    before id old was,
    lookup-insert id other new sessions,
    eq_iff id other,
  )

  remove-IsIndexedIn :
      (R : SessionRedis) (user : Option String) (id : String)
      → IsIndexedIn (remove id sessions) (discard_from R user id index)
  unfolding IsIndexedIn discard_from
  remove-IsIndexedIn R none id other held there =
      ground (arith, before other held, lookup-remove id other sessions)
  remove-IsIndexedIn R (some user) id other held there =
      let listed = or_default (lookup user index) [] in
      ground (
        arith,
        before other held,
        lookup-remove id other sessions,
        lookup-insert user held.user_id (discard id listed) index,
        contains-discard id other listed,
        eq_iff user held.user_id,
      )

  remove_all-IsIndexedIn :
      (user : String) (sids doomed : List String)
      → lookup user index ≡ some sids
      → IsIndexedIn (remove_all doomed sessions) (insert user (discard_all doomed sids) index)
  unfolding IsIndexedIn
  remove_all-IsIndexedIn user sids doomed listed other held there = ground (
    arith,
    before other held,
    lookup-remove_all other doomed sessions,
    lookup-insert user held.user_id (discard_all doomed sids) index,
    contains-discard_all other doomed sids,
    eq_iff user held.user_id,
  )

module _ (R : SessionRedis) where
  -- Every session held in memory is in the index of its user.
  unfoldable pub IsIndexed : Sessions R → Type 0
  IsIndexed s = IsIndexedIn s.in_memory s.user_index

  pub on_redis-frame :
      {A : Type 0}
      → (call : Call R A) (s : Sessions R)
      → ((on_redis R call s).1.in_memory ≡ s.in_memory)
        × ((on_redis R call s).1.user_index ≡ s.user_index)
  unfolding on_redis
  on_redis-frame call s = (ground arith, ground arith)

  get_session-frame :
      (id : String) (s : Sessions R)
      → ((get_session R id s).1.in_memory ≡ s.in_memory)
        × ((get_session R id s).1.user_index ≡ s.user_index)
  unfolding get_session
  get_session-frame id s =
      let (sessions, index) = on_redis-frame (R.hgetall (session_key id)) s in
      (ground arith, ground arith)

  -- Creating a session keeps every session held in memory in the index of its user, with and
  -- without Redis, whichever of its calls raise.
  pub create_session-IsIndexed :
      (id user_id : String) (now : ℕ) (fields : Dict Claim) (ttl : ℕ) (s : Sessions R)
      → IsIndexed s
      → IsIndexed (create_session R id user_id now fields ttl s)
  unfolding IsIndexed create_session
  create_session-IsIndexed id user_id now fields ttl s ok =
      let new : Session = record { user_id = user_id; created_at = now; fields = fields } in
      let (stored, s') = on_redis R (store_session R id new ttl) s in
      let (sessions, index) = on_redis-frame (store_session R id new ttl) s in
      elim (Bool-cases (is_some stored)) [
        | inl done ↦ rw (done, sessions, index) ok
        | inr raised ↦
            rw (raised, sessions, index) (insert-IsIndexedIn s.in_memory s.user_index ok id new)
      ]

  -- Deleting a session keeps every session held in memory in the index of its user, with and
  -- without Redis, whichever of its calls raise.
  pub delete_session-IsIndexed :
      (id : String) (s : Sessions R) → IsIndexed s → IsIndexed (delete_session R id s).1
  unfolding IsIndexed delete_session
  delete_session-IsIndexed id s ok =
      let (current, s') = get_session R id s in
      let user : Option String = elim current [ none ↦ none | some c ↦ some c.user_id ] in
      let (deleted, s'') = on_redis R (delete_stored R user id) s' in
      let (found, listed) = get_session-frame id s in
      let (sessions, index) = on_redis-frame (delete_stored R user id) s' in
      elim (Option-cases deleted) [
        | inl raised ↦
            rw (delete_session, raised, sessions, index, found, listed)
              (remove-IsIndexedIn s.in_memory s.user_index ok R user id)
        | inr (n, done) ↦ rw (delete_session, done, sessions, index, found, listed) ok
      ]

  -- Deleting all the sessions of a user, or all but one, keeps every session held in memory in the
  -- index of its user, with and without Redis, whichever of its calls raise.
  pub delete_all_user_sessions-IsIndexed :
      (user_id : String) (keep : Option String) (s : Sessions R)
      → IsIndexed s
      → IsIndexed (delete_all_user_sessions R user_id keep s).1
  unfolding IsIndexed delete_all_user_sessions
  delete_all_user_sessions-IsIndexed user_id keep s ok =
      let (count, s') = on_redis R (delete_listed R user_id keep) s in
      let (sessions, index) = on_redis-frame (delete_listed R user_id keep) s in
      elim (Option-cases (lookup user_id s.user_index)) [
        | inl unknown ↦ rw (delete_all_user_sessions, index, unknown, sessions, index) ok
        | inr (sids, known) ↦
            rw (delete_all_user_sessions, index, known, sessions, index)
              (remove_all-IsIndexedIn s.in_memory s.user_index ok user_id sids (all_but keep sids)
                known)
      ]

  pub listed_of_held :
      (s : Sessions R)
      → IsIndexed s
      → (id user_id : String) (held : Session) → lookup id s.in_memory ≡ some held
      → held.user_id ≡ user_id
      → contains id (or_default (lookup user_id s.user_index) []) ≡ true
  unfolding IsIndexed IsIndexedIn
  listed_of_held s ok id user_id held there own =
      subst (λ u. contains id (or_default (lookup u s.user_index) []) ≡ true) own (ok id held there)

  contains-all_but :
      (keep id : String) (sids : List String)
      → contains id (all_but (some keep) sids) ≡ (not (id == keep) && contains id sids)
  unfolding all_but contains
  contains-all_but keep id [] = ground arith
  contains-all_but keep id (sid ∷ sids) =
      ground (arith, contains-all_but keep id sids, eq_iff sid id, eq_iff sid keep, eq_iff id keep)

  -- With or without Redis, whichever of its calls raise, if every session held in memory is in the
  -- index of its user, then after `delete_all_user_sessions` of a user with a session to keep, the
  -- memory holds no other session of that user, and holds the session to keep and the sessions of
  -- the other users as before, where a session to keep or of another user is one whose id is not in
  -- the index of that user.
  pub delete_all_user_sessions-memory :
      (user_id keep id : String) (s : Sessions R)
      → IsIndexed s
      → let s' = (delete_all_user_sessions R user_id (some keep) s).1 in
        ((held : Session) → lookup id s'.in_memory ≡ some held → held.user_id ≡ user_id → id ≡ keep)
        × (lookup keep s'.in_memory ≡ lookup keep s.in_memory)
        × (contains id (index_of R user_id s) ≡ false
            → lookup id s'.in_memory ≡ lookup id s.in_memory)
  unfolding IsIndexed IsIndexedIn delete_all_user_sessions contains
  delete_all_user_sessions-memory user_id keep id s ok =
      let (sessions, index) = on_redis-frame (delete_listed R user_id (some keep)) s in
      elim (Option-cases (lookup user_id s.user_index)) [
        | inl unknown ↦
            rw (delete_all_user_sessions, index, unknown, sessions)
              (
                λ held there own.
                    let own_list = listed_of_held s ok id user_id held there own in ground arith,
                refl,
                λ away. refl,
              )
        | inr (sids, known) ↦
            let gone = all_but (some keep) sids in
            let kept = lookup_of_removed id gone s.in_memory in
            rw (delete_all_user_sessions, index, known, sessions)
              (
                λ held there own.
                    let was = kept held there in
                    let own_list = listed_of_held s ok id user_id held was own in
                    ground (
                      arith,
                      lookup-remove_all id gone s.in_memory,
                      contains-all_but keep id sids,
                      eq_iff id keep,
                    ),
                ground (
                  arith,
                  lookup-remove_all keep gone s.in_memory,
                  contains-all_but keep keep sids,
                  eq_refl keep,
                ),
                λ away.
                    ground
                      (arith, lookup-remove_all id gone s.in_memory, contains-all_but keep id sids),
              )
      ]
