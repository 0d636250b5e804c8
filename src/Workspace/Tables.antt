-- ===== src/Workspace/Tables.antt =====
-- The tables `workspaces`, `workspace_members` and `users` as the workspace repository uses them, and
-- how it finds a workspace. `uuid.UUID`, SHA-256 and `unquote` are parameters; the database compares
-- with `lower` over ASCII.
use Prim.Native.String.{[], ◌∷◌}
use auth_n_z.Common.{
  leb, if◌then◌else◌, is_some, or_default, lower, strip, ℕ, suc, String, Bool, false, ◌||◌, Option,
  none, some, List, ◌==◌,
}
use auth_n_z.Common.Rows.{Reply, ok, rows_where, first_where, one_or_none, ◌>>=◌}

pub record Workspace : Type 0 where
  pub id : String
  pub name : String
  pub slug : String
  pub description : Option String
  pub created_by : String
  pub created_at : ℕ
  pub updated_at : ℕ

-- `WorkspaceMember`
pub record Member : Type 0 where
  pub id : String
  pub workspace_id : String
  pub user_id : Option String
  pub email : String
  pub name : String
  pub role : String
  pub department : String
  pub status : String
  pub invited_by : String
  pub invite_token : Option String
  pub expires_at : Option ℕ
  pub invited_at : ℕ

-- the columns of a user, and the entries "name" and "department" of its metadata; of a department,
-- `some none` is an entry that is null
pub record Account : Type 0 where
  pub id : String
  pub username : String
  pub email : String
  pub meta_name : Option String
  pub meta_department : Option (Option String)

pub record Tables : Type 0 where
  pub workspaces : List Workspace
  pub members : List Member
  pub users : List Account

-- the number of characters of a text
unfoldable pub text_length : String → ℕ
text_length [] = 0
text_length (c ∷ s) = suc (text_length s)

-- the limit of a column `String(n)`
abbrev pub fits : (n : ℕ) → String → Bool
fits n text = leb (text_length text) n

pub record Outside : Type 0 where
  pub uuid : String → Option String
  pub sha256 : String → String
  pub unquote : String → String

-- `a == b` for an optional column and a value
abbrev pub is_value : String → Option String → Bool
is_value x none = false
is_value x (some y) = y == x

abbrev pub has_id : String → Workspace → Bool
has_id wid w = w.id == wid

-- `func.lower(slug) == …` or `func.lower(name) == …`
abbrev pub has_name : String → Workspace → Bool
has_name clean w = lower w.slug == lower clean || lower w.name == lower clean

-- the query by slug or name, of which more than one row is an error
unfoldable pub named : String → Tables → Reply (Option String)
named clean t = do
  found ← one_or_none (rows_where (has_name clean) t.workspaces)
  ok (elim found [ none ↦ none | some w ↦ some w.id ])

-- `_resolve_ws_uuid`
unfoldable pub resolve_ws_uuid : Outside → String → Tables → Reply (Option String)
resolve_ws_uuid out key t =
    let clean = strip key in
    if key == "" then ok none else elim (out.uuid clean) [
      | none ↦ named clean t
      | some wid ↦
          if is_some (first_where (has_id wid) t.workspaces) then ok (some wid) else named clean t
    ]

-- `_resolve_ws_id`
unfoldable pub resolve_ws_id : Outside → String → Tables → Reply (Option String)
resolve_ws_id out key t =
    if key == ""
    then ok none
    else do wid ← resolve_ws_uuid out key t; ok (some (or_default wid key))

-- `_hash_token`
unfoldable pub hash_token : Outside → String → String
hash_token out token = out.sha256 (strip token)

-- a user by id, or by username or email
unfoldable pub account_of : Outside → String → Tables → Option Account
account_of out key t = elim (out.uuid key) [
  | some uid ↦ first_where (λ (u : Account). u.id == uid) t.users
  | none ↦
      first_where (λ (u : Account). lower u.username == lower key || lower u.email == lower key)
        t.users
]
