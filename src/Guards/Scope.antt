-- ===== src/Guards/Scope.antt =====
-- The workspace in which `require_role` looks for a role.
use auth_n_z.Common.{
  or_default, lookup, String, ◌≡◌, refl, sym, ap, ◌∙◌, subst, ◌≢◌, true, Option, none, some, [],
  ◌∷◌, arith, eq_iff, text_or,
}
use auth_n_z.Identity.{User}
use auth_n_z.Permission.Complete.{Has}
use auth_n_z.Permission.Roles.{normalize_role}
use auth_n_z.Permission.Evaluator.{Evaluator, hierarchy, active_role}
use auth_n_z.Permission.RoleCheck.{HasRole, scoped, has_role_iff}
use auth_n_z.Guards.Require.{Request, CurrentUser, granted, or_else, effective_scope, require_role}

or_else-empty : (a b : Option String) → or_default a "" ≡ "" → or_else a b ≡ b
unfolding or_else
or_else-empty a b empty = ground (arith, eq_iff (or_default a "") "")

or_else-filled : (ws : String) (b : Option String) → ws ≢ "" → or_else (some ws) b ≡ some ws
unfolding or_else
or_else-filled ws b filled = ground (arith, eq_iff ws "")

module _ (e : Evaluator) (required_role scope_param : String) (req : Request)
    (cu : CurrentUser) where
  -- A guard for a role that has no scope of its own, on a request whose path and query name no
  -- workspace, is passed by every active user who is an active member, with a role that is or inherits the required one, of the workspace
  -- that the user's own header names; the user needs no such role outside that workspace.
  pub require_role_header :
      (ws role : String) (u : User)
      → or_default (lookup scope_param req.path_params) "" ≡ ""
      → or_default (lookup scope_param req.query_params) "" ≡ ""
      → req.workspace_header ≡ some ws
      → ws ≢ ""
      → e.directory.get_by_id cu.user.id ≡ some u
      → u.is_active ≡ true
      → active_role
          (e.directory.get_member (text_or (e.directory.resolve_ws_id ws) ws) cu.user.id u.email)
        ≡ some role
      → Has (hierarchy e) (normalize_role role ∷ []) (normalize_role required_role)
      → require_role e required_role none scope_param req (granted cu) ≡ granted cu
  unfolding require_role effective_scope
  require_role_header ws role u path query header filled found active member has =
      let named : or_else none (effective_scope scope_param req cu) ≡ some ws =
        or_else-empty none (effective_scope scope_param req cu) refl
        ∙ or_else-empty (lookup scope_param req.path_params)
            (or_else (lookup scope_param req.query_params)
              (or_else req.workspace_header cu.workspace_id))
            path
        ∙ or_else-empty (lookup scope_param req.query_params)
            (or_else req.workspace_header cu.workspace_id) query
        ∙ ap (λ h. or_else h cu.workspace_id) header
        ∙ or_else-filled ws cu.workspace_id filled in
      let same : text_or (some ws) "" ≡ ws = ground (arith, eq_iff ws "") in
      let own : HasRole e cu.user.id required_role (some ws) u =
        scoped role (λ empty. filled (sym same ∙ empty))
          (subst
            (λ t.
              active_role (
                e.directory.get_member (text_or (e.directory.resolve_ws_id t) t) cu.user.id u.email)
              ≡ some role)
            (sym same) member)
          has in
      let yes = (has_role_iff e cu.user.id required_role (some ws)).1 (u, found, active, own) in
      rw (require_role, named, yes) refl
