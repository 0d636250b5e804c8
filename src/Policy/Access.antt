-- ===== src/Policy/Access.antt =====
-- What `evaluate_access` decides.
use auth_n_z.Common.{
  if◌then◌else◌, or_default, lookup, lookup-insert, ℕ, ◌+◌, ◌<◌, String, ◌≡◌, Bool, ◌||◌, none,
  some, arith, eq_refl, text_append,
}
use auth_n_z.Common.Redis.{Redis}
use auth_n_z.Opa.{Response, evaluate_policy}
use auth_n_z.Policy.Engine.{has_permission, evaluate_abac}
use auth_n_z.Policy.Cache.{get_cached_decision, cache_decision}
use auth_n_z.Policy.Manager.{Payload, Manager, key_of, local_decision, evaluate_access}

module _ (R : Redis) (digest : String → String) (post : Payload → Response) where
  pub evaluate_access_fresh :
      (now : ℕ) (p : Payload) (m : Manager R digest post)
      → m.cache.redis ≡ none
      → lookup (key_of digest p) m.cache.in_memory ≡ none
      → ((evaluate_access R digest post now p m).0
          ≡ or_default (if m.opa.enabled then (evaluate_policy post p m.opa).0 else none) (
              has_permission m.engine p.user.roles (text_append p.kind (text_append ":" p.action))
              || evaluate_abac m.engine p.user p.action p.kind p.resource))
        × (lookup (key_of digest p) (evaluate_access R digest post now p m).1.cache.in_memory
            ≡ some ((evaluate_access R digest post now p m).0, now + m.cache.cache_ttl))
  unfolding evaluate_access get_cached_decision cache_decision local_decision
  evaluate_access_fresh now p m off free = ground (
    arith,
    lookup-insert (key_of digest p) (key_of digest p)
        (
          or_default (if m.opa.enabled then (evaluate_policy post p m.opa).0 else none)
              (local_decision m.engine p.user p.action p.kind p.resource),
          now + m.cache.cache_ttl,
        )
        m.cache.in_memory,
    eq_refl (key_of digest p),
  )

  cached_answer :
      (later exp : ℕ) (q : Payload) (n : Manager R digest post) (decision : Bool)
      → n.cache.redis ≡ none
      → lookup (key_of digest q) n.cache.in_memory ≡ some (decision, exp)
      → later < exp
      → evaluate_access R digest post later q n ≡ (decision, n)
  unfolding evaluate_access get_cached_decision
  cached_answer later exp q n decision off held time = ground arith

  redis_stays_off :
      (now : ℕ) (p : Payload) (m : Manager R digest post)
      → m.cache.redis ≡ none
      → (evaluate_access R digest post now p m).1.cache.redis ≡ none
  unfolding evaluate_access get_cached_decision cache_decision
  redis_stays_off now p m off = ground arith

  -- Without Redis, once a request with nothing cached is decided, its decision is returned to the
  -- next request with the same cache key until its time is over, whatever roles and attributes that
  -- request carries, and without asking OPA or the rules again: the state stays as it was.
  pub evaluate_access_repeats :
      (now later : ℕ) (p q : Payload) (m : Manager R digest post)
      → m.cache.redis ≡ none
      → lookup (key_of digest p) m.cache.in_memory ≡ none
      → key_of digest q ≡ key_of digest p
      → later < now + m.cache.cache_ttl
      → evaluate_access R digest post later q (evaluate_access R digest post now p m).1
        ≡ evaluate_access R digest post now p m
  evaluate_access_repeats now later p q m off free same time =
      let first = evaluate_access R digest post now p m in
      cached_answer later (now + m.cache.cache_ttl) q first.1 first.0 (redis_stays_off now p m off)
        (rw same (evaluate_access_fresh now p m off free).1) time
