-- ===== src/Reset/Tokens.antt =====
-- The methods of `UserRepository` on password reset tokens, over the rows of `password_reset_tokens`
-- and `users`. `uuid.UUID` and SHA-256 are parameters; an id that is read back from a row is the
-- row's own. The cache of user profiles is left out: consuming a token only removes an entry there.
use auth_n_z.Common.{
  ltb, nat_eq, if◌then◌else◌, is_some, or_default, strip, ℕ, ◌+◌, ◌*◌, String, Bool, not, ◌&&◌,
  Option, none, some, List, ◌∷◌, ◌==◌, text_append,
}
use auth_n_z.Common.Rows.{Reply, ok, raised, first_where, update_where, count_where}

-- `PasswordResetToken`
pub record ResetToken : Type 0 where
  pub id : String
  pub user_id : String
  pub token_hash : String
  pub expires_at : ℕ
  pub created_at : ℕ
  pub used_at : Option ℕ
  pub ip_address : String

-- the columns of a user that these methods read or write
pub record Account : Type 0 where
  pub id : String
  pub username : String
  pub email : String
  pub hashed_password : String
  pub is_active : Bool

pub record Tables : Type 0 where
  pub tokens : List ResetToken
  pub users : List Account

-- what `verify_password_reset_token` finds
pub record Found : Type 0 where
  pub token : ResetToken
  pub account : Account

-- the user of a row, by the foreign key
abbrev pub account_of : String → List Account → Option Account
account_of uid users = first_where (λ (u : Account). u.id == uid) users

-- `used_at.is_(None)`
abbrev pub is_unused : ResetToken → Bool
is_unused k = not (is_some k.used_at)

-- the unused tokens of a user
unfoldable pub is_open_of : String → ResetToken → Bool
is_open_of uid k = k.user_id == uid && is_unused k

-- the query of `verify_password_reset_token`
unfoldable pub is_shown : (token_hash : String) → List Account → ResetToken → Bool
is_shown token_hash users k =
    k.token_hash == token_hash && is_unused k && is_some (account_of k.user_id users)

-- the row that `consume_password_reset_token` marks
unfoldable pub is_open_row : String → ResetToken → Bool
is_open_row tid k = k.id == tid && is_unused k

unfoldable pub mark_used : ℕ → ResetToken → ResetToken
mark_used now k = record k { used_at = some now }

module _ (uuid : String → Option String) (sha256 : String → String) where
  -- `_hash_reset_token`
  unfoldable pub hash_reset_token : String → String
  hash_reset_token raw_token = sha256 (strip raw_token)

  unfoldable pub new_token :
      (id uid raw_token : String) (now minutes : ℕ) → Option String → ResetToken
  new_token id uid raw_token now minutes ip = record {
    id = id;
    user_id = uid;
    token_hash = hash_reset_token raw_token;
    expires_at = now + minutes * 60;
    created_at = now;
    used_at = none;
    ip_address = or_default ip "";
  }

  -- `create_password_reset_token`, with the random token and id; a user that is not there is an error
  -- of the foreign key
  unfoldable pub create_password_reset_token :
      (id raw_token : String) (now : ℕ) (user_id : String) (ip : Option String) (minutes : ℕ)
      → Tables
      → Reply (String × Tables)
  create_password_reset_token id raw_token now user_id ip minutes t = elim (uuid (strip user_id)) [
    | none ↦ raised (text_append "Invalid user_id for password reset: " user_id)
    | some uid ↦
        let used = update_where (is_open_of uid) (mark_used now) t.tokens in
        if is_some (account_of uid t.users)
        then ok (raw_token, record t { tokens = new_token id uid raw_token now minutes ip ∷ used })
        else raised "IntegrityError"
  ]

  -- the checks on a row that was found
  unfoldable pub check_row : ℕ → ResetToken → Account → Option Found
  check_row now k u =
      if not u.is_active
      then none
      else if ltb k.expires_at now
      then none
      else some (record { token = k; account = u })

  -- `verify_password_reset_token`
  unfoldable pub verify_password_reset_token :
      (now : ℕ) (raw_token : String) → Tables → Option Found
  verify_password_reset_token now raw_token t =
      let clean_token = strip raw_token in
      if clean_token == ""
      then none
      else elim (first_where (is_shown (hash_reset_token clean_token) t.users) t.tokens) [
        | none ↦ none
        | some k ↦ elim (account_of k.user_id t.users) [ none ↦ none | some u ↦ check_row now k u ]
      ]

  -- the two updates of `consume_password_reset_token`
  unfoldable pub consume_found : (now : ℕ) (new_hashed_password : String) → Found → Tables → Tables
  consume_found now new_hashed_password f t = record t {
    tokens = update_where (is_open_row f.token.id) (mark_used now) t.tokens;
    users =
        update_where (λ (u : Account). u.id == f.token.user_id)
          (λ u. record u { hashed_password = new_hashed_password }) t.users;
  }

  -- `consume_password_reset_token` for a token that was verified; between the two, other requests
  -- may run
  unfoldable pub consume_verified :
      (now : ℕ) (new_hashed_password : String) → Found → Tables → Option String × Tables
  consume_verified now new_hashed_password f t =
      if nat_eq (count_where (is_open_row f.token.id) t.tokens) 0
      then (none, t)
      else (some f.token.user_id, consume_found now new_hashed_password f t)

  -- `consume_password_reset_token`
  unfoldable pub consume_password_reset_token :
      (now : ℕ) (raw_token new_hashed_password : String) → Tables → Option String × Tables
  consume_password_reset_token now raw_token new_hashed_password t =
      elim (verify_password_reset_token now raw_token t) [
        | none ↦ (none, t)
        | some f ↦ consume_verified now new_hashed_password f t
      ]
