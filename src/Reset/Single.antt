-- ===== src/Reset/Single.antt =====
-- A reset token works once, whatever requests run in between.
use auth_n_z.Common.{
  nat_eq, Bool-cases, Option-cases, strip, ℕ, ◌≤◌, ◌<◌, String, ◌≡◌, refl, subst, ◌⊎◌, inl, inr,
  Bool, false, Option, none, some, List, [], ◌∷◌, arith, ◌==◌, eq_iff,
}
use auth_n_z.Common.Rows.{ok, update_where, count_where, count_where-gone, count_where-update}
use auth_n_z.Reset.Tokens.{
  ResetToken, Tables, Found, is_open_of, is_open_row, mark_used, new_token,
  create_password_reset_token, consume_found, consume_verified,
}

abbrev pub has_token_id : String → ResetToken → Bool
has_token_id tid k = k.id == tid

-- The requests as steps of the tables: a new token has an id that no other has; a request that
-- verified its token consumes it later, when others may have run.
pub data Step (uuid : String → Option String) (sha256 : String → String) (t t' : Tables)
    : Type 0 where
  issues :
      (id raw_token : String) (now : ℕ) (user_id : String) (ip : Option String) (minutes : ℕ)
      (answer : String)
      → count_where (has_token_id id) t.tokens ≡ 0
      → create_password_reset_token uuid sha256 id raw_token now user_id ip minutes t
        ≡ ok (answer, t')
      → Step uuid sha256 t t'
  consumes :
      (now : ℕ) (password : String) (f : Found) (answer : Option String)
      → consume_verified uuid sha256 now password f t ≡ (answer, t')
      → Step uuid sha256 t t'

pub data Steps (uuid : String → Option String) (sha256 : String → String) (t : Tables)
    : Tables → Type 0 where
  none_yet : Steps uuid sha256 t t
  then_step :
      {t' t'' : Tables} → Steps uuid sha256 t t' → Step uuid sha256 t' t'' → Steps uuid sha256 t t''

-- a marked row is not open any more, for any count of open rows
count_marked-le :
    (p q : ResetToken → Bool) (now : ℕ) (ks : List ResetToken)
    → ((k : ResetToken) → p (mark_used now k) ≡ false)
    → count_where p (update_where q (mark_used now) ks) ≤ count_where p ks
unfolding count_where update_where
count_marked-le p q now [] off = omega arith
count_marked-le p q now (k ∷ ks) off = ground (arith, off k, count_marked-le p q now ks off)

module _ (uuid : String → Option String) (sha256 : String → String) where
  -- the row is in the table, and used
  IsSpent : String → Tables → Type 0
  IsSpent tid t =
      (0 < count_where (has_token_id tid) t.tokens) × (count_where (is_open_row tid) t.tokens ≡ 0)

  create_cases :
      (id raw : String) (now : ℕ) (user_id : String) (ip : Option String) (minutes : ℕ)
      (answer : String) (t t' : Tables)
      → create_password_reset_token uuid sha256 id raw now user_id ip minutes t ≡ ok (answer, t')
      → (uid : String) × (record t {
        tokens =
            new_token uuid sha256 id uid raw now minutes ip
            ∷ update_where (is_open_of uid) (mark_used now) t.tokens;
      }
          ≡ t')
  unfolding create_password_reset_token
  create_cases id raw now user_id ip minutes answer t t' h =
      elim (Option-cases (uuid (strip user_id))) [
        | inl unparsed ↦ absurd (ground arith)
        | inr (uid, parsed) ↦ (uid, ground arith)
      ]

  consume_cases :
      (now : ℕ) (password : String) (f : Found) (answer : Option String) (t t' : Tables)
      → consume_verified uuid sha256 now password f t ≡ (answer, t')
      → (t ≡ t') ⊎ (consume_found uuid sha256 now password f t ≡ t')
  unfolding consume_verified
  consume_cases now password f answer t t' h =
      elim (Bool-cases (nat_eq (count_where (is_open_row f.token.id) t.tokens) 0)) [
        | inl gone ↦ inl (ground arith)
        | inr there ↦ inr (ground arith)
      ]

  Step-IsSpent :
      (tid : String) (t t' : Tables) → Step uuid sha256 t t' → IsSpent tid t → IsSpent tid t'
  unfolding count_where is_open_row mark_used consume_found new_token IsSpent
  Step-IsSpent tid t t' (issues id raw now user_id ip minutes answer fresh h) (seen, spent) =
      let (uid, same) = create_cases id raw now user_id ip minutes answer t t' h in
      let kept =
        count_where-update (has_token_id tid) (is_open_of uid) (mark_used now) t.tokens
          (λ k. refl) in
      let fewer =
        count_marked-le (is_open_row tid) (is_open_of uid) now t.tokens (λ k. ground arith) in
      subst (IsSpent tid) same
        (ground (arith, kept, eq_iff id tid), ground (arith, fewer, eq_iff id tid))
  Step-IsSpent tid t t' (consumes now password f answer h) (seen, spent) =
      elim (consume_cases now password f answer t t' h) [
        | inl same ↦ subst (IsSpent tid) same (seen, spent)
        | inr same ↦
            let kept =
              count_where-update (has_token_id tid) (is_open_row f.token.id) (mark_used now)
                t.tokens (λ k. refl) in
            let fewer =
              count_marked-le (is_open_row tid) (is_open_row f.token.id) now t.tokens
                (λ k. ground arith) in
            subst (IsSpent tid) same (omega (arith, kept, seen), omega (arith, fewer, spent))
      ]

  Steps-IsSpent :
      (tid : String) {t t' : Tables} → Steps uuid sha256 t t' → IsSpent tid t → IsSpent tid t'
  Steps-IsSpent tid none_yet spent = spent
  Steps-IsSpent tid (then_step {t'} {t''} steps step) spent =
      Step-IsSpent tid t' t'' step (Steps-IsSpent tid steps spent)

  open_seen :
      (tid : String) (ks : List ResetToken)
      → count_where (is_open_row tid) ks ≤ count_where (has_token_id tid) ks
  unfolding count_where is_open_row
  open_seen tid [] = omega arith
  open_seen tid (k ∷ ks) = ground (arith, open_seen tid ks)

  consume_verified-IsSpent :
      (now : ℕ) (password uid : String) (f : Found) (t t' : Tables)
      → consume_verified uuid sha256 now password f t ≡ (some uid, t')
      → IsSpent f.token.id t'
  unfolding consume_verified consume_found mark_used is_open_row IsSpent
  consume_verified-IsSpent now password uid f t t' h =
      let tid = f.token.id in
      let some_row : 0 < count_where (is_open_row tid) t.tokens = ground arith in
      let same : consume_found uuid sha256 now password f t ≡ t' = ground arith in
      let kept =
        count_where-update (has_token_id tid) (is_open_row tid) (mark_used now) t.tokens
          (λ k. refl) in
      let gone =
        count_where-gone (is_open_row tid) (is_open_row tid) (mark_used now) t.tokens (λ k e. e)
          (λ k. ground arith) in
      subst (IsSpent tid) same (omega (arith, kept, some_row, open_seen tid t.tokens), gone)

  -- A reset token is consumed at most once: once a request consumed the token that it had verified,
  -- no request can consume that token, at any later time and whatever password it brings, also one
  -- that had verified it before, however many tokens are issued or consumed in between, if new
  -- tokens get ids that no other has.
  pub consume_verified_once :
      (now later : ℕ) (password password' uid : String) (f g : Found) (t t' t'' : Tables)
      → consume_verified uuid sha256 now password f t ≡ (some uid, t')
      → Steps uuid sha256 t' t''
      → g.token.id ≡ f.token.id
      → consume_verified uuid sha256 later password' g t'' ≡ (none, t'')
  unfolding consume_verified IsSpent
  consume_verified_once now later password password' uid f g t t' t'' h steps same =
      let (seen, spent) =
        Steps-IsSpent f.token.id steps (consume_verified-IsSpent now password uid f t t' h) in
      rw (consume_verified, same, spent) refl
