-- ===== src/Policy/Examples.antt =====
-- Tests of the policy engine and its manager, and the theorems at concrete inputs.
use auth_n_z.Common.{
  lower, lookup, contains, String, ◌≡◌, refl, inl, true, false, none, some, [], ◌∷◌, arith,
}
use auth_n_z.Common.Samples.{memory_redis}
use auth_n_z.Opa
use auth_n_z.Opa.{Response, replied, Body}
use auth_n_z.Policy.Engine.{
  Engine, Subject, Resource, init, has_role, has_permission, evaluate_abac, missing, role_grants,
  any_role_grants, bypasses, owner_rule, public_rule, clearance_rule,
}
use auth_n_z.Policy.Defaults.{default_permissions}
use auth_n_z.Policy.Roles.{has_role_preorder, has_role_unknown}
use auth_n_z.Policy.Permissions.{has_permission_mono}
use auth_n_z.Policy.Cache.{Cache}
use auth_n_z.Policy.Manager.{Payload, Manager, evaluate_access}
use auth_n_z.Policy.Access.{evaluate_access_repeats}
use auth_n_z.Policy.Defaults.{default_hierarchy}

abbrev engine : Engine
engine = record {
  role_hierarchy = default_hierarchy;
  role_permissions = default_permissions;
  policy_hash = "built-in-defaults";
}

fallback_engine : (init missing) ≡ engine
unfolding init
fallback_engine = refl

abbrev ann : Subject
ann = record {
  role = some "Viewer";
  roles = [];
  is_superadmin = false;
  id = some "u1";
  user_id = none;
  email = some "Ann@x.org";
  clearance = some 2;
  department = some "Ops";
  meta_clearance = none;
  meta_department = none;
}

abbrev report : Resource
report = record {
  owner_id = some "u2";
  created_by = none;
  is_public = false;
  required_clearance = some 2;
  department = some "OPS";
}

ann_cleared : evaluate_abac engine ann "read" "documents" report ≡ true
unfolding evaluate_abac bypasses owner_rule public_rule clearance_rule lower contains
ann_cleared = refl

has_role_preorder_example :
    (has_role engine "Admin" "Admin" ≡ true)
    × (has_role engine "Admin" "editor" ≡ true
        → has_role engine "editor" "viewer" ≡ true
        → has_role engine "Admin" "viewer" ≡ true)
has_role_preorder_example = has_role_preorder engine "Admin" "editor" "viewer"

has_role_unknown_example : has_role engine "viewer" "owner" ≡ true
unfolding lookup lower
has_role_unknown_example = has_role_unknown engine "viewer" "owner" refl

editor_reads : has_permission engine ("Editor" ∷ []) "Tasks:Read" ≡ true
unfolding has_permission any_role_grants role_grants lookup lower contains
editor_reads = refl

has_permission_mono_example : has_permission engine ("Editor" ∷ "viewer" ∷ []) "Tasks:Read" ≡ true
has_permission_mono_example =
    has_permission_mono engine ("Editor" ∷ []) ("viewer" ∷ []) "Tasks:Read" (inl editor_reads)

abbrev cold : Cache memory_redis
cold = record { redis = none; in_memory = []; cache_ttl = 300 }

abbrev digest : String → String
digest raw = raw

abbrev post : Payload → Response
post p = replied 200 (Body.flag false)

abbrev manager : Manager memory_redis digest post
manager = record { cache = cold; opa = Opa.init true; engine = engine }

abbrev request : Payload
request = record {
  user = ann;
  action = "read";
  kind = "documents";
  resource_id = "d1";
  resource = report;
  workspace_id = none;
}

-- the same request after the report was moved to another department
abbrev moved : Payload
moved = record request { resource = record report { department = some "Legal" } }

-- Ann's clearance is lost, but the decision is kept
abbrev stripped : Payload
stripped = record moved { user = record ann { clearance = none } }

evaluate_access_repeats_example :
    evaluate_access memory_redis digest post 304 stripped
      (evaluate_access memory_redis digest post 5 request manager).1
    ≡ evaluate_access memory_redis digest post 5 request manager
unfolding lookup
evaluate_access_repeats_example =
    evaluate_access_repeats memory_redis digest post 5 304 request stripped manager refl refl refl
      (omega arith)
