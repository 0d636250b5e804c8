-- ===== src/Identity.antt =====
-- The users and memberships as the repositories return them (`_format_user` of user_repository.py
-- and `get_member` of workspace_repository.py), and the lookups that the services make. The
-- repositories' database queries are not part of this model: the lookups are parameters.
use auth_n_z.Common.{ℕ, String, Bool, Option, List}

-- the keys of a user's "metadata" that the services read; a text that is absent is empty
pub record Metadata : Type 0 where
  pub mfa_enabled : Bool
  pub mfa_secret : String
  pub backup_codes : List String
  pub clearance : Option ℕ
  pub department : Option String

-- "roles" is a list and "metadata" a dictionary for every user: `_format_user` makes them so
pub record User : Type 0 where
  pub id : String
  pub username : String
  pub email : String
  pub hashed_password : String
  pub is_active : Bool
  pub roles : List String
  pub metadata : Metadata

pub record Member : Type 0 where
  pub role : String
  pub status : String

pub record Directory : Type 0 where
  pub get_by_id : String → Option User
  pub get_by_identifier : String → Option User
  -- a workspace, a user's id and an email
  pub get_member : String → String → String → Option Member
  pub resolve_ws_id : String → Option String
