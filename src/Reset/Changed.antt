-- ===== src/Reset/Changed.antt =====
-- What consuming a reset token changes.
use auth_n_z.Common.{
  nat_eq, if◌then◌else◌, Option-cases, strip, ℕ, ◌<◌, String, ◌≡◌, refl, subst, ◌≢◌, inl, inr, Bool,
  true, false, Option, none, some, List, [], ◌∷◌, arith, ◌==◌, eq_iff, eq_refl,
}
use auth_n_z.Common.Rows.{first_where, update_where, count_where, first_where_holds}
use auth_n_z.Reset.Tokens.{
  ResetToken, Account, Tables, Found, account_of, is_shown, is_open_row, hash_reset_token,
  check_row, verify_password_reset_token, consume_found, consume_verified,
  consume_password_reset_token,
}

found_counts :
    (p q : ResetToken → Bool) (ks : List ResetToken) (k : ResetToken)
    → first_where p ks ≡ some k
    → q k ≡ true
    → 0 < count_where q ks
unfolding first_where count_where
found_counts p q [] k found meets = ground arith
found_counts p q (j ∷ ks) k found meets = ground (arith, found_counts p q ks k)

-- a user after the update of one user's password
account_of-update :
    (uid other password : String) (users : List Account)
    → account_of other (
        update_where
          (λ (u : Account). u.id == uid)
          (λ u. record u { hashed_password = password })
          users)
      ≡ elim (account_of other users) [
        | none ↦ none
        | some u ↦ some (if uid == other then record u { hashed_password = password } else u)
      ]
unfolding first_where update_where
account_of-update uid other password [] = refl
account_of-update uid other password (u ∷ users) = ground (
  arith,
  account_of-update uid other password users,
  eq_iff u.id uid,
  eq_iff u.id other,
  eq_iff uid other,
)

module _ (uuid : String → Option String) (sha256 : String → String) where
  verified_cases :
      (now : ℕ) (raw : String) (f : Found) (t : Tables)
      → verify_password_reset_token uuid sha256 now raw t ≡ some f
      → (0 < count_where (is_open_row f.token.id) t.tokens)
        × (account_of f.token.user_id t.users ≡ some f.account)
  unfolding verify_password_reset_token check_row is_shown is_open_row
  verified_cases now raw f t h =
      let p = is_shown (hash_reset_token uuid sha256 (strip raw)) t.users in
      elim (Option-cases (first_where p t.tokens)) [
        | inl missing ↦ absurd (ground arith)
        | inr (k, found) ↦ elim (Option-cases (account_of k.user_id t.users)) [
          | inl gone ↦ absurd (ground arith)
          | inr (u, there) ↦
              let same : record { token = k; account = u } ≡ f = ground arith in
              let meets = first_where_holds p t.tokens k found in
              let open_row =
                found_counts p (is_open_row k.id) t.tokens k found (ground (arith, eq_refl k.id)) in
              subst
                (λ (g : Found).
                  (0 < count_where (is_open_row g.token.id) t.tokens)
                  × (account_of g.token.user_id t.users ≡ some g.account))
                same (open_row, there)
        ]
      ]

  -- A text that is found resets the password: consuming it answers with its user, whose hashed
  -- password is the new one then, with all else as it was, and every other user is as before. A text
  -- that is not found changes nothing.
  pub consume_password_reset_token-changes :
      (now : ℕ) (raw password : String) (t : Tables)
      → let (answer, t') = consume_password_reset_token uuid sha256 now raw password t in
        ((f : Found)
          → verify_password_reset_token uuid sha256 now raw t ≡ some f
          → (answer ≡ some f.token.user_id)
            × (account_of f.token.user_id t'.users
                ≡ some (record f.account { hashed_password = password }))
            × ((other : String)
                → other ≢ f.token.user_id
                → account_of other t'.users ≡ account_of other t.users))
        × (verify_password_reset_token uuid sha256 now raw t ≡ none → (answer ≡ none) × (t' ≡ t))
  unfolding consume_password_reset_token consume_verified consume_found
  consume_password_reset_token-changes now raw password t = (
    λ f found.
        let (some_row, there) = verified_cases now raw f t found in
        let given : nat_eq (count_where (is_open_row f.token.id) t.tokens) 0 ≡ false =
          ground arith in
        let own = account_of-update f.token.user_id f.token.user_id password t.users in
        rw (consume_password_reset_token, found, given)
          (
            refl,
            ground (arith, own, there, eq_refl f.token.user_id),
            λ other differ. ground (
              arith,
              account_of-update f.token.user_id other password t.users,
              eq_iff f.token.user_id other,
            ),
          ),
    λ missing. rw (consume_password_reset_token, missing) (refl, refl),
  )
