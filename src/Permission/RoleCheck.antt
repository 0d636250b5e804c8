-- ===== src/Permission/RoleCheck.antt =====
-- When `has_role` of `PermissionEvaluator` grants a role.
use auth_n_z.Common.{
  Bool-cases, Option-cases, contains, String, ◌≡◌, ◌≢◌, ◌↔◌, inl, inr, Bool, true, false, not, ◌&&◌,
  ◌||◌, Option, none, some, [], ◌∷◌, arith, ◌==◌, eq_iff, text_or,
}
use auth_n_z.Identity.{User}
use auth_n_z.Permission.Roles.{normalize_role, expand_roles}
use auth_n_z.Permission.Complete.{Has, expand_roles_iff}
use auth_n_z.Permission.Evaluator.{
  Evaluator, hierarchy, active_role, any_superadmin, scoped_role, has_role,
}

-- Why a user has a role: it is active, and it is a superadmin, or the role it has in the scope, or
-- one of its global roles, passes the required role on.
pub data HasRole (e : Evaluator) (subject_id required : String) (scope : Option String) (u : User)
    : Type 0 where
  superadmin : any_superadmin u.roles ≡ true → HasRole e subject_id required scope u
  scoped :
      (role : String)
      → text_or scope "" ≢ ""
      → active_role (
          e.directory.get_member
            (text_or (e.directory.resolve_ws_id (text_or scope "")) (text_or scope ""))
            subject_id
            u.email)
        ≡ some role
      → Has (hierarchy e) (normalize_role role ∷ []) (normalize_role required)
      → HasRole e subject_id required scope u
  global :
      Has (hierarchy e) u.roles (normalize_role required) → HasRole e subject_id required scope u

module _ (e : Evaluator) (subject_id required : String) (scope : Option String) (u : User) where
  scope_check : Bool
  scope_check =
      not (text_or scope "" == "")
      && scoped_role e u subject_id (normalize_role required) (text_or scope "")

  scope_check→HasRole : scope_check ≡ true → HasRole e subject_id required scope u
  unfolding scope_check scoped_role
  scope_check→HasRole h =
      let member =
        e.directory.get_member
          (text_or (e.directory.resolve_ws_id (text_or scope "")) (text_or scope "")) subject_id
          u.email in
      elim (Option-cases (active_role member)) [
        | inl nobody ↦ ground arith
        | inr (role, e') ↦ scoped role (ground (arith, eq_iff (text_or scope "") "")) e' (
            (expand_roles_iff (hierarchy e) (normalize_role role ∷ []) (normalize_role required)).0
              (ground arith))
      ]

  HasRole→scope_check :
      (role : String)
      → text_or scope "" ≢ ""
      → active_role (
          e.directory.get_member
            (text_or (e.directory.resolve_ws_id (text_or scope "")) (text_or scope ""))
            subject_id
            u.email)
        ≡ some role
      → Has (hierarchy e) (normalize_role role ∷ []) (normalize_role required)
      → scope_check ≡ true
  unfolding scope_check scoped_role
  HasRole→scope_check role ne m h =
      let has =
        (expand_roles_iff (hierarchy e) (normalize_role role ∷ []) (normalize_role required)).1 h in
      ground (arith, eq_iff (text_or scope "") "")

  has_role_of :
      e.directory.get_by_id subject_id ≡ some u
      → has_role e subject_id required scope ≡ (
          u.is_active
          && (any_superadmin u.roles
              || scope_check
              || contains (normalize_role required) (expand_roles (hierarchy e) u.roles)))
  unfolding has_role scope_check
  has_role_of found = ground arith

  decided→HasRole :
      (any_superadmin u.roles
          || scope_check
          || contains (normalize_role required) (expand_roles (hierarchy e) u.roles))
        ≡ true
      → HasRole e subject_id required scope u
  decided→HasRole h = elim (Bool-cases (any_superadmin u.roles)) [
    | inl a ↦ superadmin a
    | inr na ↦ elim (Bool-cases scope_check) [
      | inl b ↦ scope_check→HasRole b
      | inr nb ↦
          global
            ((expand_roles_iff (hierarchy e) u.roles (normalize_role required)).0 (ground arith))
    ]
  ]

  HasRole→decided :
      HasRole e subject_id required scope u
      → (any_superadmin u.roles
          || scope_check
          || contains (normalize_role required) (expand_roles (hierarchy e) u.roles))
        ≡ true
  HasRole→decided (superadmin a) = ground arith
  HasRole→decided (scoped role ne m h) = ground (arith, HasRole→scope_check role ne m h)
  HasRole→decided (global h) =
      ground (arith, (expand_roles_iff (hierarchy e) u.roles (normalize_role required)).1 h)

has_role_nobody :
    (e : Evaluator) (subject_id required : String) (scope : Option String)
    → e.directory.get_by_id subject_id ≡ none
    → has_role e subject_id required scope ≡ false
unfolding has_role
has_role_nobody e s required scope h = ground arith

-- A role is granted exactly to an active user who has it: as a superadmin, through the membership
-- of the scope, or among the global roles and what these inherit.
pub has_role_iff :
    (e : Evaluator) (subject_id required : String) (scope : Option String)
    → (has_role e subject_id required scope ≡ true) ↔ (
        (u : User) × (e.directory.get_by_id subject_id ≡ some u)
        × (u.is_active ≡ true)
        × HasRole e subject_id required scope u)
has_role_iff e s required scope = (
  λ h. elim (Option-cases (e.directory.get_by_id s)) [
    | inl nobody ↦ let refused = has_role_nobody e s required scope nobody in cc
    | inr (u, found) ↦
        let decided = has_role_of e s required scope u found in
        (u, found, ground arith, decided→HasRole e s required scope u (ground arith))
  ],
  λ (u, found, active, p).
      let decided = has_role_of e s required scope u found in
      ground (arith, HasRole→decided e s required scope u p),
)
