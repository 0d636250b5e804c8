-- ===== src/Workspace/Members.antt =====
-- Memberships and invitations. An operation that raises before its transaction is over leaves the
-- tables as they were. `add_member` and `accept_invitation` read the row back after their transaction,
-- which may raise as well, so they give their answer, or the error, beside the tables.
use auth_n_z.Common.{
  ltb, nat_eq, if◌then◌else◌, is_some, or_default, length, lower, strip, before, ℕ, ◌+◌, ◌*◌,
  String, Bool, true, false, not, ◌&&◌, ◌||◌, Option, none, some, List, [], ◌∷◌, ◌++◌, ◌==◌,
  text_append, text_or,
}
use auth_n_z.Common.Rows.{
  Reply, ok, raised, rows_where, first_where, update_where, count_where, one_or_none, ◌>>=◌,
}
use auth_n_z.Workspace.Tables.{
  Workspace, Member, Account, Tables, Outside, is_value, has_id, resolve_ws_uuid, hash_token,
  account_of, fits,
}

-- the constraint `uq_workspace_members_workspace_email`
unfoldable pub same_key : (workspace_id email : String) → Member → Bool
same_key wid email m = m.workspace_id == wid && m.email == email

-- `insert(…).on_conflict_do_update(…)`: the row of the same workspace and email is changed, or else
-- the new one added
unfoldable pub upsert : Member → (Member → Member) → List Member → List Member
unfolding same_key
upsert new change [] = new ∷ []
upsert new change (m ∷ ms) =
    if same_key new.workspace_id new.email m then change m ∷ ms else m ∷ upsert new change ms

-- `clean_email.split("@")[0]`
abbrev pub local_part : String → String
local_part email = before b'@' email

-- the error of an unknown workspace
abbrev pub no_workspace : String → String
no_workspace key = text_append "Workspace '" (text_append key "' does not exist.")

-- the texts of a row are within the lengths of their columns; a digest is
abbrev pub row_fits : Member → Bool
row_fits m =
    fits 255 m.email
    && fits 255 m.name
    && fits 50 m.role
    && fits 100 m.department
    && fits 50 m.status
    && fits 255 m.invited_by

-- the arguments of `add_member` and `invite_member`
pub record Enrolment : Type 0 where
  pub email : String
  pub name : Option String
  pub role : String
  pub department : String

-- `name.strip() if name else clean_email.split("@")[0]`
unfoldable pub added_name : Enrolment → String
added_name e =
    let name = or_default e.name "" in
    if name == "" then local_part (lower (strip e.email)) else strip name

-- `(name or clean_email.split("@")[0]).strip()`
unfoldable pub invited_name : Enrolment → String
invited_name e = strip (text_or e.name (local_part (lower (strip e.email))))

-- the address of an enrolment
abbrev pub clean_email : Enrolment → String
clean_email e = lower (strip e.email)

-- `func.coalesce(new, old)`
abbrev pub coalesce : Option String → Option String → Option String
coalesce none old = old
coalesce (some new) old = some new

-- the changes of `add_member` to the row that is there
unfoldable pub link : Member → Member → Member
link new m = record m {
  user_id = coalesce new.user_id m.user_id;
  name = new.name;
  role = new.role;
  department = new.department;
  status = new.status;
}

-- the changes of `invite_member` to the row that is there
unfoldable pub reinvite : Member → Member → Member
reinvite new m = record m {
  name = new.name;
  role = new.role;
  department = new.department;
  status = "invited";
  invite_token = new.invite_token;
  expires_at = new.expires_at;
  invited_by = new.invited_by;
  invited_at = new.invited_at;
}

-- an invitation that a token finds
pub record Invitation : Type 0 where
  pub row : Member
  pub workspace : Workspace
  pub is_expired : Bool

module _ (out : Outside) where
  -- a `user_id` argument, where it parses
  unfoldable pub parse_user : Option String → Option String
  parse_user none = none
  parse_user (some id) = if id == "" then none else out.uuid (strip id)

  -- the keys of `get_member`
  unfoldable pub member_keys : (user_id email identifier : Option String) → List String
  member_keys user_id email identifier =
      let key =
        λ (o : Option String). λ (k : String). if or_default o "" == "" then [] else k ∷ [] in
      key identifier (strip (out.unquote (or_default identifier "")))
      ++ (key user_id (strip (out.unquote (or_default user_id "")))
          ++ key email (lower (strip (out.unquote (or_default email "")))))

  -- a row that one key of `get_member` selects: by its id or user, by email or name, or through the
  -- user that the key names
  unfoldable pub key_selects : Tables → String → Member → Bool
  key_selects t key m =
      let by_text = λ (text : String). lower m.email == text || lower m.name == text in
      elim (out.uuid key) [ none ↦ false | some kid ↦ m.id == kid || is_value kid m.user_id ]
      || by_text (lower key)
      || elim (account_of out key t) [
        | none ↦ false
        | some u ↦ is_value u.id m.user_id || (not (u.email == "") && by_text (lower u.email))
      ]

  unfoldable pub any_selects : Tables → List String → Member → Bool
  unfolding key_selects
  any_selects t [] m = false
  any_selects t (key ∷ keys) m = key_selects t key m || any_selects t keys m

  -- `get_member`
  unfoldable pub get_member :
      (workspace_id : String) (user_id email identifier : Option String)
      → Tables
      → Reply (Option Member)
  get_member workspace_id user_id email identifier t =
      let keys = member_keys user_id email identifier in
      if nat_eq (length keys) 0 then ok none else do
        wid ← resolve_ws_uuid out workspace_id t
        ok (elim wid [
          | none ↦ none
          | some ws ↦
              first_where (λ (m : Member). m.workspace_id == ws && any_selects t keys m) t.members
        ])

  -- the row that `add_member` inserts
  unfoldable pub added_row :
      (member_id ws : String)
      → Enrolment
      → (user_id : Option String) (status : String) (invited_by : Option String) (now : ℕ) → Member
  added_row member_id ws e user_id status invited_by now = record {
    id = member_id;
    workspace_id = ws;
    user_id = parse_user user_id;
    email = clean_email e;
    name = added_name e;
    role = e.role;
    department = e.department;
    status = status;
    invited_by = text_or invited_by "admin";
    invite_token = none;
    expires_at = none;
    invited_at = now;
  }

  -- the foreign key of `user_id`
  unfoldable pub is_known : Option String → Tables → Bool
  is_known none t = true
  is_known (some uid) t = is_some (first_where (λ (u : Account). u.id == uid) t.users)

  -- `add_member` of a workspace that was found
  unfoldable pub add_to :
      (member_id : String) (now : ℕ) (ws : String)
      → Enrolment
      → (user_id : Option String) (status : String) (invited_by : Option String) → Tables
      → Reply (Option Member) × Tables
  add_to member_id now ws e user_id status invited_by t =
      let new = added_row member_id ws e user_id status invited_by now in
      let t' = record t { members = upsert new (link new) t.members } in
      if not (row_fits new)
      then (raised "DBAPIError", t)
      else if not (is_known (parse_user user_id) t)
      then (raised "IntegrityError", t)
      else (get_member ws none (some (clean_email e)) none t', t')

  -- `add_member`
  unfoldable pub add_member :
      (member_id : String) (now : ℕ) (workspace_id : String)
      → Enrolment
      → (user_id : Option String) (status : String) (invited_by : Option String) → Tables
      → Reply (Option Member) × Tables
  add_member member_id now workspace_id e user_id status invited_by t =
      elim (resolve_ws_uuid out workspace_id t) [
        | raised error ↦ (raised error, t)
        | ok found ↦ elim found [
          | none ↦ (raised (no_workspace workspace_id), t)
          | some ws ↦ add_to member_id now ws e user_id status invited_by t
        ]
      ]

  -- the row that `invite_member` inserts
  unfoldable pub invited_row :
      (member_id ws : String)
      → Enrolment
      → (user_id : Option String) → (token : String) (invited_by : String) (expires_days now : ℕ)
      → Member
  invited_row member_id ws e user_id token invited_by expires_days now = record {
    id = member_id;
    workspace_id = ws;
    user_id = user_id;
    email = clean_email e;
    name = invited_name e;
    role = e.role;
    department = e.department;
    status = "invited";
    invited_by = invited_by;
    invite_token = some (hash_token out token);
    expires_at = some (now + expires_days * 86400);
    invited_at = now;
  }

  -- `invite_member`, with the random token; its answer repeats the row that it would insert, with the
  -- token in place of its digest, and the workspace's name
  unfoldable pub invite_member :
      (member_id token : String) (now : ℕ) (workspace_id : String)
      → Enrolment
      → (invited_by : String) (expires_days : ℕ) → Tables
      → Reply ((Member × String) × Tables)
  invite_member member_id token now workspace_id e invited_by expires_days t = do
    wid ← resolve_ws_uuid out workspace_id t
    let found : Option Workspace = elim wid [
      | none ↦ none
      | some ws ↦ first_where (has_id ws) t.workspaces
    ]
    elim found [
      | none ↦ raised (no_workspace workspace_id)
      | some w ↦ do
        user ← one_or_none (rows_where (λ (u : Account). lower u.email == clean_email e) t.users)
        let user_id : Option String = elim user [ none ↦ none | some u ↦ some u.id ]
        let new = invited_row member_id w.id e user_id token invited_by expires_days now
        if not (row_fits new)
            then raised "DBAPIError"
            else ok (
              (record new { invite_token = some token }, w.name),
              record t { members = upsert new (reinvite new) t.members },
            )
    ]

  -- the row's own token, or its digest: what the two queries by token compare with
  unfoldable pub is_invited_by : (clean_token : String) → Member → Bool
  is_invited_by clean_token m =
      (is_value (hash_token out clean_token) m.invite_token || is_value clean_token m.invite_token)
      && m.status == "invited"

  unfoldable pub late : ℕ → Option ℕ → Bool
  late now none = false
  late now (some expires_at) = ltb expires_at now

  -- `get_invitation_by_token`
  unfoldable pub get_invitation_by_token : (now : ℕ) (token : String) → Tables → Option Invitation
  get_invitation_by_token now token t =
      let clean_token = strip token in
      let joined = λ (m : Member).
        is_invited_by clean_token m && is_some (first_where (has_id m.workspace_id) t.workspaces) in
      if clean_token == "" then none else elim (first_where joined t.members) [
        | none ↦ none
        | some m ↦ elim (first_where (has_id m.workspace_id) t.workspaces) [
          | none ↦ none
          | some w ↦ some (record { row = m; workspace = w; is_expired = late now m.expires_at })
        ]
      ]

  -- the name of a member who accepts: the one given, or else the user's
  unfoldable pub accepted_name : Option String → Option String → Tables → Option String
  accepted_name user_id name t =
      if not (or_default name "" == "") then name else elim (parse_user user_id) [
        | none ↦ name
        | some uid ↦ elim (first_where (λ (u : Account). u.id == uid) t.users) [
          | none ↦ name
          | some u ↦ some (text_or u.meta_name u.username)
        ]
      ]

  unfoldable pub activate : (user_id name : Option String) → Member → Member
  activate user_id name m = record m {
    status = "active";
    invite_token = none;
    expires_at = none;
    user_id = coalesce user_id m.user_id;
    name = or_default name m.name;
  }

  -- `accept_invitation`
  unfoldable pub accept_invitation :
      (now : ℕ) (token : String) (user_id name : Option String)
      → Tables
      → Reply (Option Member) × Tables
  accept_invitation now token user_id name t =
      let clean_token = strip token in
      elim (get_invitation_by_token now clean_token t) [
        | none ↦ (ok none, t)
        | some invite ↦
            let change = activate (parse_user user_id) (accepted_name user_id name t) in
            let t' = record t {
              members = update_where (is_invited_by clean_token) change t.members;
            } in
            if invite.is_expired
            then (ok none, t)
            else if nat_eq (count_where (is_invited_by clean_token) t.members) 0
            then (ok none, t')
            else if not (fits 255 (or_default (accepted_name user_id name t) ""))
            then (raised "DBAPIError", t)
            else if not (is_known (parse_user user_id) t)
            then (raised "IntegrityError", t)
            else (get_member invite.row.workspace_id user_id (some invite.row.email) none t', t')
      ]

  -- the rows that `update_member_role` and `remove_member` select
  unfoldable pub ident_selects : Tables → (ws ident : String) → Member → Bool
  ident_selects t ws ident m =
      m.workspace_id == ws
      && (lower m.email == lower ident || lower m.name == lower ident || elim (out.uuid ident) [
        | some kid ↦ m.id == kid || is_value kid m.user_id
        | none ↦ not (
            nat_eq 0 (
              count_where
                (λ (u : Account).
                  (lower u.username == lower ident || lower u.email == lower ident)
                  && is_value u.id m.user_id)
                t.users))
      ])

  abbrev pub is_ws_role : String → Bool
  is_ws_role role = role == "admin" || role == "developer" || role == "editor" || role == "viewer"

  -- `update_member_role`
  unfoldable pub update_member_role :
      (workspace_id user_id_or_email new_role : String) → Tables → Reply (Bool × Tables)
  update_member_role workspace_id user_id_or_email new_role t =
      let ident = strip (out.unquote (strip user_id_or_email)) in
      if not (is_ws_role new_role)
      then raised (
          text_append "Invalid role '"
            (text_append new_role "'. Must be admin, developer, editor, or viewer."))
      else if strip user_id_or_email == ""
      then ok (false, t)
      else do
        wid ← resolve_ws_uuid out workspace_id t
        elim wid [
          | none ↦ ok (false, t)
          | some ws ↦
              let chosen = ident_selects t ws ident in
              ok (
                ltb 0 (count_where chosen t.members),
                record t {
                  members = update_where chosen (λ m. record m { role = new_role }) t.members;
                },
              )
        ]

  -- `remove_member`
  unfoldable pub remove_member :
      (workspace_id user_id_or_email : String) → Tables → Reply (Bool × Tables)
  remove_member workspace_id user_id_or_email t =
      let ident = strip (out.unquote (strip user_id_or_email)) in
      if strip user_id_or_email == "" then ok (false, t) else do
        wid ← resolve_ws_uuid out workspace_id t
        elim wid [
          | none ↦ ok (false, t)
          | some ws ↦
              let chosen = ident_selects t ws ident in
              ok (
                ltb 0 (count_where chosen t.members),
                record t { members = rows_where (λ m. not (chosen m)) t.members },
              )
        ]

  unfoldable pub count_in : Option String → (Member → Bool) → Tables → ℕ
  count_in none p t = 0
  count_in (some ws) p t = count_where (λ (m : Member). m.workspace_id == ws && p m) t.members

  pub record Counts : Type 0 where
    pub total : ℕ
    pub active : ℕ
    pub invited : ℕ
    pub admins : ℕ
    pub editors : ℕ
    pub viewers : ℕ

  -- `count_members`
  unfoldable pub count_members : String → Tables → Reply Counts
  count_members workspace_id t = do
    wid ← resolve_ws_uuid out workspace_id t
    ok (record {
      total = count_in wid (λ m. true) t;
      active = count_in wid (λ m. m.status == "active") t;
      invited = count_in wid (λ m. m.status == "invited") t;
      admins = count_in wid (λ m. m.role == "admin") t;
      editors = count_in wid (λ m. m.role == "editor") t;
      viewers = count_in wid (λ m. m.role == "viewer") t;
    })
