-- ===== src/Workspace/Workspaces.antt =====
-- The workspaces themselves: creating, finding, changing and deleting one. Deleting a workspace
-- deletes its members by the foreign key of workspace_models.py.
use auth_n_z.Common.{
  ltb, nat_eq, if◌then◌else◌, is_some, or_default, length, lower, strip, ℕ, suc, String, Bool,
  false, not, ◌&&◌, ◌||◌, Option, none, some, ◌∷◌, ◌==◌, text_append, text_or,
}
use auth_n_z.Common.Rows.{
  Reply, ok, raised, rows_where, first_where, update_where, count_where, one_or_none, ◌>>=◌,
}
use auth_n_z.Workspace.Tables.{
  Workspace, Member, Account, Tables, Outside, has_id, resolve_ws_uuid, fits,
}
use auth_n_z.Workspace.Slug.{slugify, free_slug, is_taken}

-- the entries of `updates` that `update_workspace` reads; a missing entry is `none`
pub record Updates : Type 0 where
  pub name : Option String
  pub slug : Option String
  pub description : Option (Option String)

-- `(description or "").strip() or None`
unfoldable pub tidy_text : Option String → Option String
tidy_text text = let tidy = strip (or_default text "") in if tidy == "" then none else some tidy

-- `desc.strip() if desc else None`
unfoldable pub strip_text : Option String → Option String
strip_text none = none
strip_text (some text) = if text == "" then none else some (strip text)

-- `meta.get("department", "Management")`, as the row gets it: SQLAlchemy leaves a column with a
-- default out of the INSERT where its attribute is None, so a null entry gives the default "General"
unfoldable pub department_or : Option (Option String) → String
department_or none = "Management"
department_or (some none) = "General"
department_or (some (some department)) = department

-- The errors of SQLAlchemy: a text that is longer than its column, and a constraint.
abbrev pub too_long : String
too_long = "DBAPIError"

abbrev pub not_unique : String
not_unique = "IntegrityError"

-- `sess.add(new_ws)` and its flush: the lengths of the columns, then the primary key and the slug
unfoldable pub insert_workspace : Workspace → Tables → Reply Tables
insert_workspace w t =
    if not (fits 255 w.name && fits 255 w.slug && fits 255 w.created_by)
    then raised too_long
    else if ltb 0 (count_where (has_id w.id) t.workspaces) || is_taken w.slug t.workspaces
    then raised not_unique
    else ok (record t { workspaces = w ∷ t.workspaces })

-- `sess.add(member)` and its flush; the role and the status are constants that fit
unfoldable pub insert_member : Member → Tables → Reply Tables
insert_member m t =
    let clash =
      λ (n : Member). n.id == m.id || n.workspace_id == m.workspace_id && n.email == m.email in
    if not (fits 255 m.email && fits 255 m.name && fits 100 m.department && fits 255 m.invited_by)
    then raised too_long
    else if ltb 0 (count_where clash t.members)
    then raised not_unique
    else ok (record t { members = m ∷ t.members })

module _ (out : Outside) where
  -- the user whose id is that of the creator
  unfoldable pub creator : String → Tables → Option Account
  creator created_by t = elim (out.uuid (strip created_by)) [
    | none ↦ none
    | some uid ↦ first_where (λ (u : Account). u.id == uid) t.users
  ]

  -- the creator's own membership
  unfoldable pub creator_row : (member_id ws created_by : String) → Option Account → ℕ → Member
  creator_row member_id ws created_by user now = record {
    id = member_id;
    workspace_id = ws;
    user_id = elim user [ none ↦ none | some u ↦ some u.id ];
    email = elim user [
      | none ↦ text_append created_by "@workspace.local"
      | some u ↦ lower (strip u.email)
    ];
    name = elim user [ none ↦ created_by | some u ↦ text_or u.meta_name u.username ];
    role = "admin";
    department = elim user [ none ↦ "Management" | some u ↦ department_or u.meta_department ];
    status = "active";
    invited_by = created_by;
    invite_token = none;
    expires_at = none;
    invited_at = now;
  }

  -- `get_workspace`
  unfoldable pub get_workspace : String → Tables → Option Workspace
  get_workspace workspace_id t = elim (out.uuid (strip workspace_id)) [
    | none ↦ none
    | some wid ↦ if workspace_id == "" then none else first_where (has_id wid) t.workspaces
  ]

  -- the workspace that `create_workspace` adds, by its slug
  unfoldable pub new_workspace :
      (id : String) (now : ℕ) (name created_by : String) (description : Option String)
      (slug : String)
      → Workspace
  new_workspace id now name created_by description slug = record {
    id = id;
    name = strip name;
    slug = slug;
    description = tidy_text description;
    created_by = created_by;
    created_at = now;
    updated_at = now;
  }

  -- the two rows in one transaction, and the reading back after it
  unfoldable pub add_rows : Workspace → Member → Tables → Reply (Option Workspace) × Tables
  add_rows w m t =
      let inserted : Reply Tables = insert_workspace w t >>= insert_member m in
      elim inserted [ raised e ↦ (raised e, t) | ok t' ↦ (ok (get_workspace w.id t'), t') ]

  -- `create_workspace`, with new ids and the random text of an empty slug: its answer and the tables
  -- after it. It tries as many slugs as there are workspaces, and one; `none` is that all were taken.
  unfoldable pub create_workspace :
      (workspace_id member_id random : String) (now : ℕ) (name created_by : String)
      (slug description : Option String)
      → Tables
      → Option (Reply (Option Workspace) × Tables)
  create_workspace workspace_id member_id random now name created_by slug description t =
      let base = slugify random (text_or slug (strip name)) in
      let m = creator_row member_id workspace_id created_by (creator created_by t) now in
      elim (free_slug (suc (length t.workspaces)) base 1 t.workspaces) [
        | none ↦ none
        | some target ↦
            some (add_rows (new_workspace workspace_id now name created_by description target) m t)
      ]

  -- `get_workspace_by_slug`
  unfoldable pub get_workspace_by_slug : String → Tables → Option Workspace
  get_workspace_by_slug slug t =
      let clean_slug = lower (strip slug) in
      if slug == ""
      then none
      else first_where (λ (w : Workspace). lower w.slug == clean_slug) t.workspaces

  -- the new slug of `update_workspace`, if one is given; an error if another workspace has it
  unfoldable pub new_slug : (random wid : String) → Option String → Tables → Reply (Option String)
  new_slug random wid slug t =
      let clean_slug = slugify random (or_default slug "") in
      let others =
        rows_where (λ (w : Workspace). w.slug == clean_slug && not (w.id == wid)) t.workspaces in
      if or_default slug "" == "" then ok none else do
        collision ← one_or_none others
        if is_some collision
            then raised
                (text_append "Workspace slug '" (text_append clean_slug "' is already taken."))
            else ok (some clean_slug)

  -- the columns that are written; the name is written if it is given and not empty
  unfoldable pub apply_updates : ℕ → Updates → Option String → Workspace → Workspace
  apply_updates now updates slug w = record w {
    name = if or_default updates.name "" == "" then w.name else strip (or_default updates.name "");
    slug = or_default slug w.slug;
    description = elim updates.description [ none ↦ w.description | some d ↦ strip_text d ];
    updated_at = now;
  }

  -- `update_workspace`
  unfoldable pub update_workspace :
      (random : String) (now : ℕ) (workspace_id : String)
      → Updates
      → Tables
      → Reply (Option Workspace × Tables)
  update_workspace random now workspace_id updates t =
      elim (if workspace_id == "" then none else out.uuid (strip workspace_id)) [
        | none ↦ ok (none, t)
        | some wid ↦ do
          slug ← new_slug random wid updates.slug t
          let t' = record t {
            workspaces = update_where (has_id wid) (apply_updates now updates slug) t.workspaces;
          }
          if or_default updates.name "" == ""
                && not (is_some updates.description)
                && not (is_some slug)
              then ok (get_workspace workspace_id t, t)
              else if nat_eq (count_where (has_id wid) t.workspaces) 0
              then ok (none, t)
              else if not
                  (fits 255 (strip (or_default updates.name "")) && fits 255 (or_default slug ""))
              then raised too_long
              else ok (get_workspace workspace_id t', t')
      ]

  -- `delete_workspace`
  unfoldable pub delete_workspace : String → Tables → Reply (Bool × Tables)
  delete_workspace workspace_id t = if workspace_id == "" then ok (false, t) else do
    wid ← resolve_ws_uuid out workspace_id t
    elim wid [
      | none ↦ ok (false, t)
      | some ws ↦ ok (
        ltb 0 (count_where (has_id ws) t.workspaces),
        record t {
          workspaces = rows_where (λ w. not (has_id ws w)) t.workspaces;
          members = rows_where (λ (m : Member). not (m.workspace_id == ws)) t.members;
        },
      )
    ]
