-- ===== src/Permission/Accessible.antt =====
-- `is_resource_accessible`: an active user's request is handed to the policy manager.
use auth_n_z.Common.{
  if◌then◌else◌, Option-cases, lookup, ℕ, String, ◌≡◌, inl, inr, Bool, true, false, Option, none,
  some, arith,
}
use auth_n_z.Common.Redis.{Redis}
use auth_n_z.Opa.{Response}
use auth_n_z.Identity.{User, Directory}
use auth_n_z.Policy.Engine.{Resource, bypasses, evaluate_abac}
use auth_n_z.Policy.Manager.{Payload, Manager, key_of, evaluate_access}
use auth_n_z.Policy.Access.{evaluate_access_fresh}
use auth_n_z.Permission.Evaluator.{any_superadmin, subject_payload}

module _ (R : Redis) (digest : String → String) (post : Payload → Response) where
  abbrev pub request_of : User → String → String → String → Resource → Option String → Payload
  request_of u action kind id res workspace_id = record {
    user = subject_payload u;
    action = action;
    kind = kind;
    resource_id = id;
    resource = res;
    workspace_id = workspace_id;
  }

  unfoldable pub is_resource_accessible :
      Directory
      → ℕ
      → (subject_id action kind resource_id : String) → Resource
      → Option String
      → Manager R digest post
      → Bool × Manager R digest post
  is_resource_accessible d now subject_id action kind id res workspace_id m =
      elim (d.get_by_id subject_id) [
        | none ↦ (false, m)
        | some u ↦
            if u.is_active
            then evaluate_access R digest post now (request_of u action kind id res workspace_id) m
            else (false, m)
      ]

  -- A user who is unknown or inactive reaches no resource, and its request leaves the manager and
  -- its cache as they were.
  pub is_resource_accessible_inactive :
      (d : Directory) (now : ℕ) (subject_id action kind id : String) (res : Resource)
      (w : Option String) (m : Manager R digest post)
      → ((u : User) → d.get_by_id subject_id ≡ some u → u.is_active ≡ false)
      → is_resource_accessible d now subject_id action kind id res w m ≡ (false, m)
  unfolding is_resource_accessible
  is_resource_accessible_inactive d now s action kind id res w m h =
      elim (Option-cases (d.get_by_id s)) [
        | inl nobody ↦ ground arith
        | inr (u, found) ↦ let inactive = h u found in ground arith
      ]

  superadmin_bypasses :
      (u : User) → any_superadmin u.roles ≡ true → bypasses (subject_payload u) ≡ true
  unfolding bypasses subject_payload
  superadmin_bypasses u h = ground arith

  -- An active superadmin reaches every resource when the decision is not cached and OPA is off.
  pub is_resource_accessible_superadmin :
      (d : Directory) (now : ℕ) (subject_id action kind id : String) (res : Resource)
      (w : Option String) (m : Manager R digest post) (u : User)
      → d.get_by_id subject_id ≡ some u
      → u.is_active ≡ true
      → any_superadmin u.roles ≡ true
      → m.cache.redis ≡ none
      → lookup (key_of digest (request_of u action kind id res w)) m.cache.in_memory ≡ none
      → m.opa.enabled ≡ false
      → (is_resource_accessible d now subject_id action kind id res w m).0 ≡ true
  unfolding is_resource_accessible evaluate_abac
  is_resource_accessible_superadmin d now s action kind id res w m u found active super off free
        quiet =
      let fresh =
        (evaluate_access_fresh R digest post now (request_of u action kind id res w) m off
          free).0 in
      ground (arith, superadmin_bypasses u super)
