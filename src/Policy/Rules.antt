-- ===== src/Policy/Rules.antt =====
-- What the attribute rules of `evaluate_abac` allow.
use auth_n_z.Common.{
  or_default, lower, contains, ◌≤◌, String, ◌≡◌, ◌≢◌, ◌⊎◌, true, some, map, text_or,
}
use auth_n_z.Policy.Engine.{
  Engine, Subject, Resource, all_roles, sub_id, sub_clearance, sub_department, has_role,
}

-- The reasons to allow an action, each in the terms of the attributes.
pub data Allowed (e : Engine) (s : Subject) (action kind : String) (res : Resource) : Type 0 where
  administrator :
      (contains "superadmin" (map lower (all_roles s)) ≡ true)
        ⊎ (contains "admin" (map lower (all_roles s)) ≡ true)
        ⊎ (s.is_superadmin ≡ true)
      → Allowed e s action kind res
  owner : res.owner_id ≡ some (sub_id s) → sub_id s ≢ "" → Allowed e s action kind res
  open_to_all :
      res.is_public ≡ true → (action ≡ "read") ⊎ (action ≡ "view") → Allowed e s action kind res
  cleared :
      (dept : String)
      → res.department ≡ some dept
      → lower dept ≡ lower (sub_department s)
      → or_default res.required_clearance 1 ≤ sub_clearance s
      → Allowed e s action kind res
  creator :
      kind ≡ "tasks"
      → lower (text_or res.created_by "") ≢ ""
      → lower (text_or res.created_by "") ≡ lower (text_or s.email "")
      → (role : String) → contains role (all_roles s) ≡ true
      → has_role e role "editor" ≡ true
      → Allowed e s action kind res
