-- ===== src/Session/Outage.antt =====
-- Sessions made while Redis does not answer.
use auth_n_z.Common.{ltb, lookup, ℕ, String, ◌≡◌, refl, ap, ◌∙◌, false, Option, none, some, arith}
use auth_n_z.Session.Store.{
  Session, SessionRedis, Sessions, get_session, delete_session, on_redis, delete_stored,
  session_key,
}
use auth_n_z.Session.Index.{on_redis-frame}

module _ (R : SessionRedis) where
  get_unknown :
      (id : String) (held : Session) (s : Sessions R)
      → lookup id s.in_memory ≡ some held
      → (on_redis R (R.hgetall (session_key id)) s).0 ≡ some none
      → get_session R id s ≡ (some held, (on_redis R (R.hgetall (session_key id)) s).1)
  unfolding get_session
  get_unknown id held s there unknown =
      let (sessions, index) = on_redis-frame R (R.hgetall (session_key id)) s in ground arith

  deleted_by_redis :
      (id : String) (current : Option Session) (s s' : Sessions R)
      → get_session R id s ≡ (current, s')
      → (n : ℕ)
      → let user : Option String = elim current [ none ↦ none | some c ↦ some c.user_id ] in
        (on_redis R (delete_stored R user id) s').0 ≡ some n
        → delete_session R id s ≡ (ltb 0 n, (on_redis R (delete_stored R user id) s').1)
  unfolding delete_session
  deleted_by_redis id current s s' got n done = rw (delete_session, got, done, got) refl

  -- If a session is held in memory because Redis raised when it was made, and Redis then answers
  -- again, that it does not know the session and that it deleted no key, then `delete_session`
  -- leaves the session in memory and `get_session` still finds it there if Redis still does not
  -- know it.
  pub survives_delete :
      (id : String) (held : Session) (s : Sessions R)
      → lookup id s.in_memory ≡ some held
      → (on_redis R (R.hgetall (session_key id)) s).0 ≡ some none
      → let s' = (on_redis R (R.hgetall (session_key id)) s).1 in
        (on_redis R (delete_stored R (some held.user_id) id) s').0 ≡ some 0
        → let s'' = (on_redis R (delete_stored R (some held.user_id) id) s').1 in
          (on_redis R (R.hgetall (session_key id)) s'').0 ≡ some none
          → ((delete_session R id s).0 ≡ false)
            × ((get_session R id (delete_session R id s).1).0 ≡ some held)
  survives_delete id held s there unknown deleted still =
      let s' = (on_redis R (R.hgetall (session_key id)) s).1 in
      let s'' = (on_redis R (delete_stored R (some held.user_id) id) s').1 in
      let got = get_unknown id held s there unknown in
      let gone = deleted_by_redis id (some held) s s' got 0 deleted in
      let (first, _) = on_redis-frame R (R.hgetall (session_key id)) s in
      let (second, _) = on_redis-frame R (delete_stored R (some held.user_id) id) s' in
      let found = get_unknown id held s'' (ap (lookup id) (second ∙ first) ∙ there) still in
      (ap (λ p. p.0) gone, ap (λ p. (get_session R id p.1).0) gone ∙ ap (λ p. p.0) found)
