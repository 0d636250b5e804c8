-- ===== src/Policy/Engine.antt =====
-- `DeclarativePolicyEngine`: the role levels, the permission map and the attribute rules.
use auth_n_z.Common.{
  leb, if◌then◌else◌, or_default, lower, before, Dict, lookup, insert, contains, ℕ, zero, String,
  Bool, true, false, not, ◌&&◌, ◌||◌, Option, none, some, List, [], ◌∷◌, ◌++◌, map, ◌==◌,
  text_append, text_or,
}
use auth_n_z.Policy.Defaults.{default_hierarchy, default_permissions}

pub record Engine : Type 0 where
  pub role_hierarchy : Dict ℕ
  pub role_permissions : Dict (List String)
  pub policy_hash : String

-- What reading the policy file gives. `raised` is a failure to read or to parse it, and a parsed
-- file may raise on its "roles" after the hierarchy is stored.
pub data PolicyFile : Type 0 where
  missing raised : PolicyFile
  parsed :
      (hierarchy : Option (Dict ℕ)) (roles : Option (Dict (List String))) (digest : String)
      → PolicyFile

-- `_load_fallback_defaults`
load_fallback_defaults : Engine → Engine
load_fallback_defaults e = record e {
  role_permissions = default_permissions;
  policy_hash = "built-in-defaults";
}

-- the loop over `roles_data`
lower_keys : Dict (List String) → Dict (List String) → Dict (List String)
lower_keys [] acc = acc
lower_keys ((role, perms) ∷ rest) acc = lower_keys rest (insert (lower role) perms acc)

-- `load_policies`, with what it returns
unfoldable pub load_policies : PolicyFile → Engine → Bool × Engine
unfolding load_fallback_defaults lower_keys
load_policies missing e = (false, load_fallback_defaults e)
load_policies raised e = (false, load_fallback_defaults e)
load_policies (parsed h none digest) e =
    (false, load_fallback_defaults (record e { role_hierarchy = or_default h e.role_hierarchy }))
load_policies (parsed h (some roles) digest) e = (
  true,
  record {
    role_hierarchy = or_default h e.role_hierarchy;
    role_permissions = lower_keys roles [];
    policy_hash = digest;
  },
)

-- `__init__`
unfoldable pub init : PolicyFile → Engine
unfolding load_policies
init file =
    (load_policies file
      (record { role_hierarchy = default_hierarchy; role_permissions = []; policy_hash = "" })).1

-- `self.role_hierarchy.get(role.lower(), 0)`
abbrev pub level : Engine → String → ℕ
level e role = or_default (lookup (lower role) e.role_hierarchy) 0

-- `has_role`
unfoldable pub has_role : Engine → String → String → Bool
has_role e caller required = leb (level e required) (level e caller)

-- `self.role_permissions.get(role.lower(), set())`
abbrev pub granted : Engine → String → List String
granted e role = or_default (lookup (lower role) e.role_permissions) []

-- `":" in s`
unfoldable pub has_colon : String → Bool
has_colon s = not (before b':' s == s)

-- `f"{domain}:*"` for the domain of a permission
unfoldable pub domain_wildcard : String → String
domain_wildcard p = text_append (before b':' p) ":*"

-- one round of the loop in `has_permission`
unfoldable pub role_grants : Engine → String → String → Bool
unfolding has_colon domain_wildcard
role_grants e req role =
    let r_perms = granted e role in
    contains "*" r_perms
    || contains req r_perms
    || has_colon req && contains (domain_wildcard req) r_perms

unfoldable pub any_role_grants : Engine → String → List String → Bool
unfolding role_grants
any_role_grants e req [] = false
any_role_grants e req (role ∷ roles) =
    let rest = any_role_grants e req roles in if role_grants e req role then true else rest

-- `has_permission`
unfoldable pub has_permission : Engine → List String → String → Bool
unfolding any_role_grants
has_permission e caller_roles required = any_role_grants e (lower required) caller_roles

-- The dictionary of a subject. `is_superadmin` is the truth value of that key, and the last two
-- fields are the keys of its "metadata". Clearances are numbers.
pub record Subject : Type 0 where
  pub role : Option String
  pub roles : List String
  pub is_superadmin : Bool
  pub id : Option String
  pub user_id : Option String
  pub email : Option String
  pub clearance : Option ℕ
  pub department : Option String
  pub meta_clearance : Option ℕ
  pub meta_department : Option String

pub record Resource : Type 0 where
  pub owner_id : Option String
  pub created_by : Option String
  pub is_public : Bool
  pub required_clearance : Option ℕ
  pub department : Option String

-- `a or d` for a number
abbrev pub num_or : Option ℕ → ℕ → ℕ
num_or none d = d
num_or (some zero) d = d
num_or (some n) d = n

-- the role list with `role` appended if it is not there
abbrev pub all_roles : Subject → List String
all_roles s =
    let role = text_or s.role "" in
    if role == "" || contains role s.roles then s.roles else s.roles ++ role ∷ []

abbrev pub sub_id : Subject → String
sub_id s = text_or s.id (text_or s.user_id "")

abbrev pub sub_clearance : Subject → ℕ
sub_clearance s = num_or s.clearance (or_default s.meta_clearance 1)

abbrev pub sub_department : Subject → String
sub_department s = text_or s.department (or_default s.meta_department "General")

-- the bypass for administrators
unfoldable pub bypasses : Subject → Bool
bypasses s =
    let normalized = map lower (all_roles s) in
    contains "superadmin" normalized || contains "admin" normalized || s.is_superadmin

unfoldable pub any_has_role : Engine → String → List String → Bool
unfolding has_role
any_has_role e required [] = false
any_has_role e required (r ∷ rs) = has_role e r required || any_has_role e required rs

-- the ownership, public, clearance and creator rules
unfoldable pub owner_rule : Subject → Resource → Bool
owner_rule s res = let owner = text_or res.owner_id "" in not (owner == "") && owner == sub_id s

unfoldable pub public_rule : String → Resource → Bool
public_rule action res = res.is_public && (action == "read" || action == "view")

unfoldable pub clearance_rule : Subject → Resource → Bool
clearance_rule s res = elim res.department [
  | none ↦ false
  | some dept ↦
      lower dept == lower (sub_department s)
      && leb (or_default res.required_clearance 1) (sub_clearance s)
]

unfoldable pub creator_rule : Engine → Subject → String → Resource → Bool
unfolding any_has_role
creator_rule e s kind res =
    let created_by = lower (text_or res.created_by "") in
    kind == "tasks"
    && not (created_by == "")
    && created_by == lower (text_or s.email "")
    && any_has_role e "editor" (all_roles s)

-- `evaluate_abac`
unfoldable pub evaluate_abac : Engine → Subject → String → String → Resource → Bool
evaluate_abac e s action kind res =
    if bypasses s
    then true
    else if owner_rule s res
    then true
    else if public_rule action res
    then true
    else if clearance_rule s res
    then true
    else creator_rule e s kind res
