-- ===== src/Policy/Permissions.antt =====
-- Which permissions the roles of a caller grant.
use auth_n_z.Common.{
  Bool-cases, lower, contains, contains-append, String, ◌≡◌, ◌↔◌, ◌⊎◌, inl, inr, true, List, [],
  ◌∷◌, ◌++◌, arith, eq_iff,
}
use auth_n_z.Policy.Engine.{
  Engine, granted, has_colon, domain_wildcard, role_grants, any_role_grants, has_permission,
}

-- A role grants a permission by the wildcard, by name, or by the wildcard of the permission's
-- domain.
pub data Grants (e : Engine) (req role : String) : Type 0 where
  everything : contains "*" (granted e role) ≡ true → Grants e req role
  by_name : contains req (granted e role) ≡ true → Grants e req role
  by_domain :
      has_colon req ≡ true
      → contains (domain_wildcard req) (granted e role) ≡ true
      → Grants e req role

role_grants_sound :
    (e : Engine) (req role : String) → role_grants e req role ≡ true → Grants e req role
unfolding role_grants
role_grants_sound e req role h = elim (Bool-cases (contains "*" (granted e role))) [
  | inl a ↦ everything a
  | inr a ↦ elim (Bool-cases (contains req (granted e role))) [
    | inl b ↦ by_name b
    | inr b ↦ by_domain (ground arith) (ground arith)
  ]
]

role_grants_complete :
    (e : Engine) (req role : String) → Grants e req role → role_grants e req role ≡ true
unfolding role_grants
role_grants_complete e req role (everything h) = ground arith
role_grants_complete e req role (by_name h) = ground arith
role_grants_complete e req role (by_domain h k) = ground arith

any_sound :
    (e : Engine) (req : String) (roles : List String)
    → any_role_grants e req roles ≡ true
    → (role : String) × (contains role roles ≡ true) × Grants e req role
unfolding any_role_grants contains
any_sound e req [] h = cc
any_sound e req (r ∷ rs) h = elim (Bool-cases (role_grants e req r)) [
  | inl g ↦ (r, ground (arith, eq_iff r r), role_grants_sound e req r g)
  | inr g ↦ let (x, m, k) = any_sound e req rs (ground arith) in (x, ground arith, k)
]

any_complete :
    (e : Engine) (req : String) (roles : List String) (role : String)
    → contains role roles ≡ true
    → Grants e req role
    → any_role_grants e req roles ≡ true
unfolding any_role_grants contains
any_complete e req [] role m g = cc
any_complete e req (r ∷ rs) role m g =
    ground (arith, eq_iff r role, role_grants_complete e req role g, any_complete e req rs role)

-- A caller has a permission exactly if one of its roles grants it, read in lower case.
pub has_permission-Grants :
    (e : Engine) (roles : List String) (p : String)
    → (has_permission e roles p ≡ true)
      ↔ ((role : String) × (contains role roles ≡ true) × Grants e (lower p) role)
unfolding has_permission
has_permission-Grants e roles p =
    (any_sound e (lower p) roles, λ h. any_complete e (lower p) roles h.0 h.1 h.2)

-- More roles never take a permission away, on either side of the list.
pub has_permission_mono :
    (e : Engine) (xs ys : List String) (p : String)
    → (has_permission e xs p ≡ true) ⊎ (has_permission e ys p ≡ true)
    → has_permission e (xs ++ ys) p ≡ true
has_permission_mono e xs ys p (inl h) =
    let (r, m, g) = (has_permission-Grants e xs p).0 h in
    (has_permission-Grants e (xs ++ ys) p).1 (r, rw contains-append (ground arith), g)
has_permission_mono e xs ys p (inr h) =
    let (r, m, g) = (has_permission-Grants e ys p).0 h in
    (has_permission-Grants e (xs ++ ys) p).1 (r, rw contains-append (ground arith), g)
