-- ===== src/Permission/Evaluator.antt =====
-- `PermissionEvaluator`: effective permissions, roles and permissions of a user.
use Prim.Native.String.{compare}
use Prim.Native.Nat.{Ordering}
use auth_n_z.Common.{
  if◌then◌else◌, or_default, ends_with, drop_last, Dict, lookup, contains, add, String, Bool, true,
  false, not, ◌&&◌, ◌||◌, Option, none, some, List, [], ◌∷◌, ◌++◌, ◌==◌, starts_with, text_or,
}
use auth_n_z.Identity.{User, Member, Directory}
use auth_n_z.Policy.Engine.{Engine, Subject}
use auth_n_z.Permission.Roles.{Hierarchy, hierarchy_or, normalize_role, expand_roles}

pub record Evaluator : Type 0 where
  pub directory : Directory
  pub engine : Engine
  pub custom_role_permissions : Option (Dict (List String))
  pub custom_role_hierarchy : Option Hierarchy

-- `self.custom_role_permissions or …engine.role_permissions`
abbrev pub role_map : Evaluator → Dict (List String)
role_map e = elim e.custom_role_permissions [
  | some (p ∷ m) ↦ p ∷ m
  | some [] ↦ e.engine.role_permissions
  | none ↦ e.engine.role_permissions
]

abbrev pub hierarchy : Evaluator → Hierarchy
hierarchy e = hierarchy_or e.custom_role_hierarchy

abbrev pub perms_of : Evaluator → String → List String
perms_of e role = or_default (lookup role (role_map e)) []

-- the role of an active member
abbrev pub active_role : Option Member → Option String
active_role none = none
active_role (some m) = if m.status == "active" then some m.role else none

abbrev one : Option String → List String
one none = []
one (some role) = role ∷ []

-- the role that the context's workspace adds
abbrev pub workspace_role : Evaluator → User → String → Option String → List String
workspace_role e u subject_id workspace_id =
    let ws = text_or workspace_id "" in
    if ws == "" then [] else one (active_role (e.directory.get_member ws subject_id u.email))

-- `permissions.update(role_perms)`
unfoldable pub union : List String → List String → List String
union [] acc = acc
union (p ∷ ps) acc = union ps (add p acc)

-- `sorted`
unfoldable pub insert_sorted : String → List String → List String
insert_sorted x [] = x ∷ []
insert_sorted x (y ∷ ys) = elim (compare y x) [
  | Ordering.lt ↦ y ∷ insert_sorted x ys
  | _ ↦ x ∷ y ∷ ys
]

unfoldable pub sorted : List String → List String
unfolding insert_sorted
sorted [] = []
sorted (x ∷ xs) = insert_sorted x (sorted xs)

-- the loop over the roles, which returns at the first wildcard
unfoldable pub collect : Evaluator → List String → List String → List String
unfolding union sorted
collect e [] acc = sorted acc
collect e (role ∷ roles) acc =
    let rest = collect e roles (union (perms_of e role) acc) in
    if contains "*" (perms_of e role) then "*" ∷ [] else rest

unfoldable pub permissions_of : Evaluator → List String → List String
permissions_of e expanded =
    if contains "superadmin" expanded || contains "admin" expanded
    then "*" ∷ []
    else collect e expanded []

-- `get_effective_permissions`
unfoldable pub get_effective_permissions : Evaluator → String → Option String → List String
get_effective_permissions e subject_id workspace_id = elim (e.directory.get_by_id subject_id) [
  | none ↦ []
  | some u ↦
      if u.is_active
      then permissions_of e
          (expand_roles (hierarchy e) (u.roles ++ workspace_role e u subject_id workspace_id))
      else []
]

-- the wildcard of a domain: `perm[:-1]` is a prefix of what is required
abbrev pub covers : String → String → Bool
covers required perm = ends_with perm ":*" && starts_with required (drop_last perm)

unfoldable pub any_covers : String → List String → Bool
any_covers required [] = false
any_covers required (p ∷ ps) = covers required p || any_covers required ps

-- `has_permission`
unfoldable pub has_permission : Evaluator → String → String → Option String → Bool
has_permission e subject_id required workspace_id =
    let granted = get_effective_permissions e subject_id workspace_id in
    if contains "*" granted || contains required granted then true else any_covers required granted

unfoldable pub any_superadmin : List String → Bool
any_superadmin [] = false
any_superadmin (r ∷ rs) = normalize_role r == "superadmin" || any_superadmin rs

-- the scoped check of `has_role`
unfoldable pub scoped_role : Evaluator → User → String → String → String → Bool
scoped_role e u subject_id target scope =
    let resolved = text_or (e.directory.resolve_ws_id scope) scope in
    elim (active_role (e.directory.get_member resolved subject_id u.email)) [
      | none ↦ false
      | some role ↦ contains target (expand_roles (hierarchy e) (normalize_role role ∷ []))
    ]

-- `has_role`
unfoldable pub has_role : Evaluator → String → String → Option String → Bool
has_role e subject_id required scope = elim (e.directory.get_by_id subject_id) [
  | none ↦ false
  | some u ↦
      if not u.is_active
      then false
      else if any_superadmin u.roles
      then true
      else if not (text_or scope "" == "")
          && scoped_role e u subject_id (normalize_role required) (text_or scope "")
      then true
      else contains (normalize_role required) (expand_roles (hierarchy e) u.roles)
]

-- the subject that `is_resource_accessible` builds
unfoldable pub subject_payload : User → Subject
subject_payload u = record {
  role = none;
  roles = u.roles;
  is_superadmin = any_superadmin u.roles;
  id = some u.id;
  user_id = none;
  email = some u.email;
  clearance = some (or_default u.metadata.clearance 1);
  department = some (or_default u.metadata.department "General");
  meta_clearance = none;
  meta_department = none;
}
