-- ===== src/Policy/Roles.antt =====
-- The role levels of the policy engine as an order on role names.
use auth_n_z.Common.{or_default, lower, lookup, ◌≤◌, String, ◌≡◌, true, none, arith, eq_iff}
use auth_n_z.Policy.Engine.{Engine, has_role}
use auth_n_z.Policy.Defaults.{default_hierarchy}

-- The comparison of roles is a preorder: a role has itself, and it has what a role that it has
-- has.
pub has_role_preorder :
    (e : Engine) (a b c : String)
    → (has_role e a a ≡ true)
      × (has_role e a b ≡ true → has_role e b c ≡ true → has_role e a c ≡ true)
unfolding has_role
has_role_preorder e a b c = ground arith

-- A required role that the hierarchy does not name is had by everyone, whatever the caller's role.
pub has_role_unknown :
    (e : Engine) (caller required : String)
    → lookup (lower required) e.role_hierarchy ≡ none
    → has_role e caller required ≡ true
unfolding has_role
has_role_unknown e caller required h = ground arith

default_level-le : (role : String) → or_default (lookup role default_hierarchy) 0 ≤ 5
unfolding lookup
default_level-le role = ground arith

default_level_top :
    (role : String) → 5 ≤ or_default (lookup role default_hierarchy) 0 → role ≡ "superadmin"
unfolding lookup
default_level_top role h = ground (arith, eq_iff "superadmin" role)

-- With the built-in levels a superadmin has every role, and nobody else has that of a superadmin.
pub has_role_superadmin :
    (e : Engine) (role : String)
    → e.role_hierarchy ≡ default_hierarchy
    → (has_role e "superadmin" role ≡ true)
      × (has_role e role "superadmin" ≡ true → lower role ≡ "superadmin")
unfolding has_role lookup lower
has_role_superadmin e role h = (
  rw h (ground (arith, default_level-le (lower role))),
  rw h (λ p. default_level_top (lower role) (ground arith)),
)
