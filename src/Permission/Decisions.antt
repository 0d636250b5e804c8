-- ===== src/Permission/Decisions.antt =====
-- When `has_permission` of `PermissionEvaluator` grants a permission.
use auth_n_z.Common.{
  if◌then◌else◌, Bool-cases, Option-cases, contains, String, ◌≡◌, refl, sym, ◌∙◌, subst, ◌↔◌, ◌⊎◌,
  inl, inr, true, false, ◌||◌, Option, none, some, List, [], ◌++◌, arith,
}
use auth_n_z.Identity.{User}
use auth_n_z.Permission.Roles.{expand_roles}
use auth_n_z.Permission.Complete.{Has, expand_roles_iff}
use auth_n_z.Permission.Evaluator.{
  Evaluator, hierarchy, perms_of, workspace_role, collect, permissions_of,
  get_effective_permissions, any_covers, has_permission,
}
use auth_n_z.Permission.Grants.{
  Meets, accepts, accepts_iff, before_loop, by_role, collect_sound, collect_complete,
}

-- Why a user is permitted something: it is active, and it has an administrator's role, or one of
-- the roles that it has, with that of the workspace, is mapped to an entry that meets it.
pub data Permitted (e : Evaluator) (subject_id required : String) (workspace_id : Option String)
    (u : User) : Type 0 where
  administrator :
      (role : String)
      → (role ≡ "superadmin") ⊎ (role ≡ "admin")
      → Has (hierarchy e) (u.roles ++ workspace_role e u subject_id workspace_id) role
      → Permitted e subject_id required workspace_id u
  mapped :
      (role perm : String)
      → Has (hierarchy e) (u.roles ++ workspace_role e u subject_id workspace_id) role
      → contains perm (perms_of e role) ≡ true
      → Meets required perm
      → Permitted e subject_id required workspace_id u

accepts-Permitted :
    (e : Evaluator) (subject_id required : String) (w : Option String) (u : User)
    → accepts required
        (permissions_of e (expand_roles (hierarchy e) (u.roles ++ workspace_role e u subject_id w)))
      ≡ true
    → Permitted e subject_id required w u
unfolding permissions_of contains
accepts-Permitted e s required w u h =
    let direct = u.roles ++ workspace_role e u s w in
    let all = expand_roles (hierarchy e) direct in
    elim (Bool-cases (contains "superadmin" all)) [
      | inl a ↦
          administrator "superadmin" (inl refl)
            ((expand_roles_iff (hierarchy e) direct "superadmin").0 a)
      | inr na ↦ elim (Bool-cases (contains "admin" all)) [
        | inl b ↦
            administrator "admin" (inr refl) ((expand_roles_iff (hierarchy e) direct "admin").0 b)
        | inr nb ↦
            let found : accepts required (collect e all []) ≡ true = rw (na, nb) at h in
            let (p, m, k) = (accepts_iff required (collect e all [])).0 found in
            let (q, c, k') = collect_sound e required all [] p m k in
            elim c [
              | before_loop none_there ↦ cc
              | by_role role m' k'' ↦
                  mapped role q ((expand_roles_iff (hierarchy e) direct role).0 m') k'' k'
            ]
      ]
    ]

Permitted-accepts :
    (e : Evaluator) (subject_id required : String) (w : Option String) (u : User)
    → Permitted e subject_id required w u
    → accepts required
        (permissions_of e (expand_roles (hierarchy e) (u.roles ++ workspace_role e u subject_id w)))
      ≡ true
unfolding permissions_of contains
Permitted-accepts e s required w u (administrator role (inl r) k) =
    let direct = u.roles ++ workspace_role e u s w in
    rw (
      subst (λ x. contains x (expand_roles (hierarchy e) direct) ≡ true) r
        ((expand_roles_iff (hierarchy e) direct role).1 k))
Permitted-accepts e s required w u (administrator role (inr r) k) =
    let direct = u.roles ++ workspace_role e u s w in
    let has =
      subst (λ x. contains x (expand_roles (hierarchy e) direct) ≡ true) r
        ((expand_roles_iff (hierarchy e) direct role).1 k) in
    ground arith
Permitted-accepts e s required w u (mapped role perm k m meets) =
    let direct = u.roles ++ workspace_role e u s w in
    let all = expand_roles (hierarchy e) direct in
    let found =
      collect_complete e required all [] perm
        (by_role role ((expand_roles_iff (hierarchy e) direct role).1 k) m) meets in
    let yes_there = (accepts_iff required (collect e all [])).1 found in
    elim (Bool-cases (contains "superadmin" all || contains "admin" all)) [
      | inl a ↦ rw a
      | inr na ↦ rw na yes_there
    ]

granted_to :
    (e : Evaluator) (subject_id : String) (w : Option String) (o : Option User)
    → e.directory.get_by_id subject_id ≡ o
    → get_effective_permissions e subject_id w ≡ elim o [
      | none ↦ []
      | some u ↦
          if u.is_active
          then permissions_of e
              (expand_roles (hierarchy e) (u.roles ++ workspace_role e u subject_id w))
          else []
    ]
unfolding get_effective_permissions
granted_to e s w none h = rw (h, get_effective_permissions)
granted_to e s w (some u) h = rw (h, get_effective_permissions)

has_permission_of :
    (e : Evaluator) (subject_id required : String) (w : Option String) {granted : List String}
    → get_effective_permissions e subject_id w ≡ granted
    → has_permission e subject_id required w ≡ accepts required granted
unfolding has_permission
has_permission_of e s required w h = rw h

-- A permission is granted exactly to an active user who is permitted it.
pub has_permission_iff :
    (e : Evaluator) (subject_id required : String) (workspace_id : Option String)
    → (has_permission e subject_id required workspace_id ≡ true) ↔ (
        (u : User) × (e.directory.get_by_id subject_id ≡ some u)
        × (u.is_active ≡ true)
        × Permitted e subject_id required workspace_id u)
unfolding any_covers contains
has_permission_iff e s required w = (
  λ h. elim (Option-cases (e.directory.get_by_id s)) [
    | inl nobody ↦
        let refused = has_permission_of e s required w (granted_to e s w none nobody) in cc
    | inr (u, found) ↦
        let decided = has_permission_of e s required w (granted_to e s w (some u) found) in
        elim (Bool-cases u.is_active) [
          | inl active ↦ (
            u,
            found,
            active,
            accepts-Permitted e s required w u (rw active at (sym decided ∙ h)),
          )
          | inr inactive ↦
              let refused : has_permission e s required w ≡ false = rw inactive at decided in cc
        ]
  ],
  λ (u, found, active, p).
      let decided = has_permission_of e s required w (granted_to e s w (some u) found) in
      decided ∙ rw active (Permitted-accepts e s required w u p),
)
