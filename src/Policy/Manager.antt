-- ===== src/Policy/Manager.antt =====
-- `DistributedPolicyManager`: the decision cache, the OPA sidecar and the engine, in this order.
-- SHA-256 is a parameter: the first 16 hexadecimal digits of the digest of a text.
use auth_n_z.Common.{
  if◌then◌else◌, or_default, ℕ, String, Bool, true, Option, none, some, text_append, text_or,
}
use auth_n_z.Common.Redis.{Redis}
use auth_n_z.Opa.{Response, OpaClient, evaluate_policy}
use auth_n_z.Policy.Engine.{Engine, Subject, Resource, sub_id, has_permission, evaluate_abac}
use auth_n_z.Policy.Cache.{Cache, get_cached_decision, cache_decision}

-- the payload that is sent to OPA
pub record Payload : Type 0 where
  pub user : Subject
  pub action : String
  pub kind : String
  pub resource_id : String
  pub resource : Resource
  pub workspace_id : Option String

-- `_cache_key`; an empty scope reads as "global"
unfoldable pub cache_key :
    (digest : String → String) → String → String → String → Option String → String
cache_key digest subject_id action resource scope =
    let raw = text_append subject_id (
      text_append ":" (
        text_append (text_or scope "global")
          (text_append ":" (text_append action (text_append ":" resource))))) in
    text_append "authnz:perm_cache:" (digest raw)

-- the RBAC mapping, then the attribute rules
unfoldable pub local_decision : Engine → Subject → String → String → Resource → Bool
local_decision e s action kind res =
    if has_permission e s.roles (text_append kind (text_append ":" action))
    then true
    else evaluate_abac e s action kind res

-- the key under which a request is cached
abbrev pub key_of : (digest : String → String) → Payload → String
key_of digest p =
    cache_key digest (sub_id p.user) p.action (text_append p.kind (text_append "/" p.resource_id))
      p.workspace_id

module _ (R : Redis) (digest : String → String) (post : Payload → Response) where
  pub record Manager : Type 0 where
    pub cache : Cache R
    pub opa : OpaClient
    pub engine : Engine

  -- what is decided without the cache, and the state of the OPA client after it
  ask_opa : Payload → Manager → Option Bool × Manager
  ask_opa p m =
      if m.opa.enabled
      then (let (answer, opa) = evaluate_policy post p m.opa in (answer, record m { opa = opa }))
      else (none, m)

  -- `evaluate_access`
  unfoldable pub evaluate_access : ℕ → Payload → Manager → Bool × Manager
  unfolding ask_opa
  evaluate_access now p m =
      let key = key_of digest p in
      let (cached, cache) = get_cached_decision R now key m.cache in
      let m' : Manager = record m { cache = cache } in
      elim cached [
        | some decision ↦ (decision, m')
        | none ↦
            let (answer, m'') = ask_opa p m' in
            let decision =
              or_default answer (local_decision m.engine p.user p.action p.kind p.resource) in
            (decision, record m'' { cache = cache_decision R now key decision m''.cache })
      ]
