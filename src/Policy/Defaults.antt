-- ===== src/Policy/Defaults.antt =====
-- The constants of policy_engine.py: the role levels, and the permissions that are used when the
-- policy file cannot be loaded.
use auth_n_z.Common.{Dict, ℕ, String, List, [], ◌∷◌}

abbrev pub default_hierarchy : Dict ℕ
default_hierarchy =
    ("superadmin", 5) ∷ ("admin", 4) ∷ ("developer", 3) ∷ ("editor", 2) ∷ ("viewer", 1) ∷ []

abbrev admin_permissions : List String
admin_permissions =
    "workspaces:read" ∷ "workspaces:update" ∷ "workspaces:delete" ∷ "workspaces:invite"
    ∷ "workspaces:manage_members" ∷ "workspaces:audit_logs" ∷ "tasks:create" ∷ "tasks:read"
    ∷ "tasks:update" ∷ "tasks:delete" ∷ "team:invite" ∷ "team:manage" ∷ "documents:read"
    ∷ "documents:write" ∷ "documents:delete" ∷ []

abbrev developer_permissions : List String
developer_permissions =
    "code:read" ∷ "code:write" ∷ "code:commit" ∷ "workspaces:read" ∷ "tasks:create" ∷ "tasks:read"
    ∷ "tasks:update" ∷ "documents:read" ∷ "documents:write" ∷ "reports:read" ∷ "team:read" ∷ []

abbrev editor_permissions : List String
editor_permissions =
    "workspaces:read" ∷ "tasks:create" ∷ "tasks:read" ∷ "tasks:update" ∷ "documents:read"
    ∷ "documents:write" ∷ []

abbrev viewer_permissions : List String
viewer_permissions = "workspaces:read" ∷ "tasks:read" ∷ "documents:read" ∷ []

abbrev pub default_permissions : Dict (List String)
default_permissions =
    ("superadmin", "*" ∷ [])
    ∷ ("admin", admin_permissions)
    ∷ ("developer", developer_permissions)
    ∷ ("editor", editor_permissions)
    ∷ ("viewer", viewer_permissions)
    ∷ []
