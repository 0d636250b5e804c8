-- ===== src/Permission/Roles.antt =====
-- `_normalize_role` and `_expand_roles`: the walk through the role hierarchy.
use auth_n_z.Common.{
  if◌then◌else◌, or_default, length, lower, strip, Dict, lookup, contains, add, ℕ, zero, suc, ◌+◌,
  String, Option, none, some, List, [], ◌∷◌, ◌++◌, map, ◌==◌,
}

-- `_normalize_role`
unfoldable pub normalize_role : String → String
normalize_role role =
    let clean = lower (strip role) in
    if contains clean ("super-admin" ∷ "super_admin" ∷ "superadmin" ∷ "root" ∷ "rootadmin" ∷ [])
    then "superadmin"
    else clean

abbrev pub Hierarchy : Type 0
Hierarchy = Dict (List String)

abbrev pub built_in : Hierarchy
built_in =
    ("superadmin", "admin" ∷ "developer" ∷ "editor" ∷ "viewer" ∷ [])
    ∷ ("admin", "developer" ∷ "editor" ∷ "viewer" ∷ [])
    ∷ ("developer", "editor" ∷ "viewer" ∷ [])
    ∷ ("editor", "viewer" ∷ [])
    ∷ ("viewer", [])
    ∷ []

-- `self.custom_role_hierarchy or {…}`: an empty dictionary counts as none
abbrev pub hierarchy_or : Option Hierarchy → Hierarchy
hierarchy_or (some (e ∷ h)) = e ∷ h
hierarchy_or _ = built_in

-- `[self._normalize_role(r) for r in direct_roles if r]`
unfoldable pub normalize_all : List String → List String
normalize_all [] = []
normalize_all (r ∷ rs) =
    let rest = normalize_all rs in if r == "" then rest else normalize_role r ∷ rest

-- `set(xs)`
unfoldable pub set_of : List String → List String
set_of [] = []
set_of (x ∷ xs) = add x (set_of xs)

-- the names that a role inherits, as the inner loop meets them
abbrev pub inherited : Hierarchy → String → List String
inherited h role = map normalize_role (or_default (lookup role h) [])

-- the inner loop, over the names that are already normalised
unfoldable pub offer : List String → List String × List String → List String × List String
offer [] (seen, queue) = (seen, queue)
offer (n ∷ ns) (seen, queue) =
    offer ns (add n seen, if contains n seen then queue else queue ++ n ∷ [])

-- the `while` loop; `none` is a loop that is out of fuel
unfoldable pub walk : ℕ → Hierarchy → List String → List String → Option (List String)
walk fuel h [] seen = some seen
walk zero h (role ∷ queue) seen = none
walk (suc fuel) h (role ∷ queue) seen =
    let (seen', queue') = offer (inherited h role) (seen, queue) in walk fuel h queue' seen'

-- every name that the hierarchy can add
unfoldable pub universe : Hierarchy → List String
universe [] = []
universe ((role, names) ∷ h) = map normalize_role names ++ universe h

abbrev pub fuel_for : Hierarchy → List String → ℕ
fuel_for h direct = length (normalize_all direct) + length (universe h)

-- `_expand_roles`, with fuel that is enough
unfoldable pub expand_roles : Hierarchy → List String → List String
expand_roles h direct =
    let normalized = normalize_all direct in
    or_default (walk (fuel_for h direct) h normalized (set_of normalized)) []
