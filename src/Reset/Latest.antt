-- ===== src/Reset/Latest.antt =====
-- A new reset token is found by its text, and replaces the earlier ones of its user.
use auth_n_z.Common.{
  ltb, if◌then◌else◌, is_some, strip, ℕ, ◌+◌, ◌*◌, String, ◌≡◌, sym, ap, subst, ◌≢◌, true, false,
  not, ◌&&◌, Option, none, some, List, ◌∷◌, arith, ◌==◌, eq_iff, eq_refl,
}
use auth_n_z.Common.Rows.{ok, first_where, update_where, count_where, count_where-gone}
use auth_n_z.Reset.Tokens.{
  ResetToken, Account, Tables, account_of, is_open_of, is_shown, mark_used, hash_reset_token,
  new_token, create_password_reset_token, check_row, verify_password_reset_token,
}

module _ (uuid : String → Option String) (sha256 : String → String) where
  created :
      (id raw : String) (now : ℕ) (user_id uid : String) (ip : Option String) (minutes : ℕ)
      (answer : String) (t t' : Tables)
      → uuid (strip user_id) ≡ some uid
      → create_password_reset_token uuid sha256 id raw now user_id ip minutes t ≡ ok (answer, t')
      → (is_some (account_of uid t.users) ≡ true)
        × (raw ≡ answer)
        × (record t {
          tokens =
              new_token uuid sha256 id uid raw now minutes ip
              ∷ update_where (is_open_of uid) (mark_used now) t.tokens;
        }
            ≡ t')
  unfolding create_password_reset_token
  created id raw now user_id uid ip minutes answer t t' parsed h =
      (ground arith, ground arith, ground arith)

  found_new :
      (id raw : String) (now later : ℕ) (uid : String) (ip : Option String) (minutes : ℕ)
      (u : Account) (older : List ResetToken) (users : List Account)
      → account_of uid users ≡ some u
      → strip raw ≡ raw
      → raw ≢ ""
      → let new = new_token uuid sha256 id uid raw now minutes ip in
        verify_password_reset_token uuid sha256 later raw
          (record { tokens = new ∷ older; users = users })
        ≡ (if u.is_active && not (ltb (now + minutes * 60) later)
            then some (record { token = new; account = u })
            else none)
  unfolding verify_password_reset_token new_token first_where is_shown check_row
  found_new id raw now later uid ip minutes u older users there tidy filled =
      let given : (raw == "") ≡ false = ground (arith, eq_iff raw "") in
      rw (verify_password_reset_token, tidy, given)
        (ground (arith, there, eq_refl (hash_reset_token uuid sha256 raw)))

  -- A token that is issued for a user replaces every earlier one: the user has exactly one unused
  -- token then. Its text, if it is not blank, is found exactly until its minutes are over, if the
  -- user is active, and it is the user's; and the users are as they were.
  pub verify-create_password_reset_token :
      (id raw : String) (now later : ℕ) (user_id uid : String) (ip : Option String) (minutes : ℕ)
      (answer : String) (u : Account) (t t' : Tables)
      → uuid (strip user_id) ≡ some uid
      → account_of uid t.users ≡ some u
      → strip raw ≡ raw
      → raw ≢ ""
      → create_password_reset_token uuid sha256 id raw now user_id ip minutes t ≡ ok (answer, t')
      → (answer ≡ raw)
        × (t'.users ≡ t.users)
        × (count_where (is_open_of uid) t'.tokens ≡ 1)
        × (verify_password_reset_token uuid sha256 later raw t' ≡ (
            if u.is_active && not (ltb (now + minutes * 60) later)
            then some
                (record { token = new_token uuid sha256 id uid raw now minutes ip; account = u })
            else none))
  unfolding new_token is_open_of mark_used count_where
  verify-create_password_reset_token id raw now later user_id uid ip minutes answer u t t' parsed
        there tidy filled h =
      let (_, same, state) = created id raw now user_id uid ip minutes answer t t' parsed h in
      let gone =
        count_where-gone (is_open_of uid) (is_open_of uid) (mark_used now) t.tokens (λ k e. e)
          (λ k. ground arith) in
      (
        sym same,
        ap (λ s. s.users) (sym state),
        subst (λ s. count_where (is_open_of uid) s.tokens ≡ 1) state
            (ground (arith, gone, eq_refl uid)),
        subst
            (λ s. verify_password_reset_token uuid sha256 later raw s ≡ (
              if u.is_active && not (ltb (now + minutes * 60) later)
              then some
                  (record { token = new_token uuid sha256 id uid raw now minutes ip; account = u })
              else none))
            state
            (found_new id raw now later uid ip minutes u
              (update_where (is_open_of uid) (mark_used now) t.tokens) t.users there tidy filled),
      )
