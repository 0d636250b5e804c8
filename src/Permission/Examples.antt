-- ===== src/Permission/Examples.antt =====
-- Tests of the permission evaluator, and its theorems at concrete inputs.
use auth_n_z.Common.{
  if◌then◌else◌, lower, strip, ends_with, drop_last, lookup, contains, add, String, ◌≡◌, refl, ◌↔◌,
  Bool, true, false, ◌&&◌, none, some, List, [], ◌∷◌, ◌==◌,
}
use auth_n_z.Common.Samples.{memory_redis}
use auth_n_z.Opa
use auth_n_z.Opa.{Response, raised}
use auth_n_z.Identity.{User, Directory, Metadata}
use auth_n_z.Policy.Engine.{Resource}
use auth_n_z.Policy.Manager.{Payload, Manager}
use auth_n_z.Permission.Roles.{
  Hierarchy, normalize_role, normalize_all, set_of, walk, offer, universe, expand_roles,
}
use auth_n_z.Permission.Complete.{Has, expand_roles_iff}
use auth_n_z.Permission.Evaluator.{
  Evaluator, has_permission, has_role, get_effective_permissions, permissions_of, collect, union,
  sorted, any_covers,
}
use auth_n_z.Permission.Decisions.{Permitted, has_permission_iff}
use auth_n_z.Permission.RoleCheck.{HasRole, has_role_iff}

-- two roles that inherit one another
abbrev cyclic : Hierarchy
cyclic = ("lead", "Reviewer" ∷ []) ∷ ("reviewer", "lead" ∷ []) ∷ []

cyclic_walk : expand_roles cyclic (" Lead " ∷ []) ≡ "reviewer" ∷ "lead" ∷ []
unfolding expand_roles walk offer normalize_all normalize_role set_of universe lower strip lookup
    contains add
cyclic_walk = refl

alias : normalize_role " Super-Admin" ≡ "superadmin"
unfolding normalize_role lower strip contains
alias = refl

expand_roles_iff_example :
    (contains "lead" (expand_roles cyclic ("reviewer" ∷ [])) ≡ true)
    ↔ Has cyclic ("reviewer" ∷ []) "lead"
expand_roles_iff_example = expand_roles_iff cyclic ("reviewer" ∷ []) "lead"

abbrev plain : Metadata
plain = record {
  mfa_enabled = false;
  mfa_secret = "";
  backup_codes = [];
  clearance = none;
  department = none;
}

abbrev user_of : String → Bool → List String → User
user_of id active roles = record {
  id = id;
  username = id;
  email = id;
  hashed_password = "h";
  is_active = active;
  roles = roles;
  metadata = plain;
}

-- Ann is an editor and an admin of the workspace "w1"; Root is a superadmin; Bob left.
abbrev directory : Directory
directory = record {
  get_by_id = λ id.
      if id == "ann"
      then some (user_of "ann" true ("editor" ∷ []))
      else if id == "root"
      then some (user_of "root" true ("Root" ∷ []))
      else if id == "bob"
      then some (user_of "bob" false ("admin" ∷ []))
      else none;
  get_by_identifier = λ id. none;
  get_member = λ ws id email.
      if ws == "w1" && id == "ann"
      then some (record { role = "Admin"; status = "active" })
      else none;
  resolve_ws_id = λ ws. some ws;
}

abbrev evaluator : Evaluator
evaluator = record {
  directory = directory;
  engine = record {
    role_hierarchy = [];
    role_permissions = ("editor", "tasks:*" ∷ []) ∷ [];
    policy_hash = "";
  };
  custom_role_permissions = none;
  custom_role_hierarchy = none;
}

ann_permissions :
    (has_permission evaluator "ann" "tasks:read" none ≡ true)
    × (has_permission evaluator "ann" "team:manage" none ≡ false)
    × (has_permission evaluator "ann" "team:manage" (some "w1") ≡ true)
unfolding has_permission get_effective_permissions permissions_of collect union sorted any_covers
    ends_with drop_last expand_roles walk offer normalize_all normalize_role set_of universe lower
    strip lookup contains add
ann_permissions = (refl, refl, refl)

has_permission_iff_example : (has_permission evaluator "ann" "team:manage" (some "w1") ≡ true) ↔ (
    (u : User) × (directory.get_by_id "ann" ≡ some u)
    × (u.is_active ≡ true)
    × Permitted evaluator "ann" "team:manage" (some "w1") u)
has_permission_iff_example = has_permission_iff evaluator "ann" "team:manage" (some "w1")

has_role_iff_example : (has_role evaluator "ann" "developer" (some "w1") ≡ true) ↔ (
    (u : User) × (directory.get_by_id "ann" ≡ some u)
    × (u.is_active ≡ true)
    × HasRole evaluator "ann" "developer" (some "w1") u)
has_role_iff_example = has_role_iff evaluator "ann" "developer" (some "w1")

abbrev digest : String → String
digest raw = raw

abbrev post : Payload → Response
post p = raised

abbrev manager : Manager memory_redis digest post
manager = record {
  cache = record { redis = none; in_memory = []; cache_ttl = 300 };
  opa = Opa.init false;
  engine = record { role_hierarchy = []; role_permissions = []; policy_hash = "" };
}

abbrev secret : Resource
secret = record {
  owner_id = some "ann";
  created_by = none;
  is_public = true;
  required_clearance = none;
  department = none;
}
