-- ===== src/Reset/Examples.antt =====
-- The reset of a password at concrete tables.
use auth_n_z.Common.{
  ltb, if◌then◌else◌, strip, ◌+◌, ◌*◌, String, ◌≡◌, refl, ◌≢◌, true, not, ◌&&◌, none, some, [], ◌∷◌,
  text_append,
}
use auth_n_z.Common.Rows.{ok, first_where, update_where, count_where}
use auth_n_z.Reset.Tokens.{
  ResetToken, Account, Tables, Found, account_of, is_open_of, is_open_row, mark_used,
  hash_reset_token, new_token, create_password_reset_token, verify_password_reset_token,
  consume_found, consume_verified, consume_password_reset_token,
}
use auth_n_z.Reset.Single.{Steps, none_yet, then_step, issues, consume_verified_once}
use auth_n_z.Reset.Latest.{verify-create_password_reset_token}
use auth_n_z.Reset.Changed.{consume_password_reset_token-changes}

abbrev ann : Account
ann = record {
  id = "u1";
  username = "ann";
  email = "ann@x.org";
  hashed_password = "old";
  is_active = true;
}

abbrev quiet : Tables
quiet = record { tokens = []; users = ann ∷ [] }

abbrev digest : String → String
digest = text_append "h:"

abbrev raw_token : String
raw_token = "r1"

abbrev first : ResetToken
first = record {
  id = "k1";
  user_id = "u1";
  token_hash = "h:r1";
  expires_at = 1000;
  created_at = 100;
  used_at = none;
  ip_address = "";
}

abbrev waiting : Tables
waiting = record { tokens = first ∷ []; users = ann ∷ [] }

abbrev reset : Tables
reset = record {
  tokens = record first { used_at = some 200 } ∷ [];
  users = record ann { hashed_password = "new" } ∷ [];
}

-- a second token is issued after the reset
abbrev second : Tables
second = record reset {
  tokens =
      record first { id = "k2"; token_hash = "h:r2"; expires_at = 1200; created_at = 300 }
      ∷ record first { used_at = some 200 }
      ∷ [];
}

issuing :
    create_password_reset_token some digest "k1" raw_token 100 "u1" none 15 quiet
    ≡ ok (raw_token, waiting)
unfolding create_password_reset_token new_token hash_reset_token first_where update_where strip
issuing = refl

verify-create_password_reset_token_example :
    (raw_token ≡ raw_token)
    × (waiting.users ≡ quiet.users)
    × (count_where (is_open_of "u1") waiting.tokens ≡ 1)
    × (verify_password_reset_token some digest 200 raw_token waiting ≡ (
        if ann.is_active && not (ltb (100 + 15 * 60) 200)
        then some (record {
          token = new_token some digest "k1" "u1" raw_token 100 15 none;
          account = ann;
        })
        else none))
unfolding strip first_where
verify-create_password_reset_token_example =
    verify-create_password_reset_token some digest "k1" raw_token 100 200 "u1" "u1" none 15
      raw_token ann quiet waiting refl refl refl (λ e. cc e) issuing

abbrev found : Found
found = record { token = first; account = ann }

consuming : consume_verified some digest 200 "new" found waiting ≡ (some "u1", reset)
unfolding consume_verified consume_found count_where is_open_row update_where mark_used
consuming = refl

issuing_again :
    create_password_reset_token some digest "k2" "r2" 300 "u1" none 15 reset ≡ ok ("r2", second)
unfolding create_password_reset_token new_token hash_reset_token first_where update_where strip
    is_open_of
issuing_again = refl

later : Steps some digest reset second
unfolding count_where
later = then_step none_yet (issues "k2" "r2" 300 "u1" none 15 "r2" refl issuing_again)

consume_verified_once_example :
    consume_verified some digest 400 "other" found second ≡ (none, second)
consume_verified_once_example =
    consume_verified_once some digest 200 400 "new" "other" "u1" found found waiting reset second
      consuming later refl

consume_password_reset_token-changes_example :
    let (answer, t') = consume_password_reset_token some digest 200 raw_token "new" waiting in
    ((f : Found)
      → verify_password_reset_token some digest 200 raw_token waiting ≡ some f
      → (answer ≡ some f.token.user_id)
        × (account_of f.token.user_id t'.users
            ≡ some (record f.account { hashed_password = "new" }))
        × ((other : String)
            → other ≢ f.token.user_id
            → account_of other t'.users ≡ account_of other waiting.users))
    × (verify_password_reset_token some digest 200 raw_token waiting ≡ none
        → (answer ≡ none) × (t' ≡ waiting))
consume_password_reset_token-changes_example =
    consume_password_reset_token-changes some digest 200 raw_token "new" waiting
