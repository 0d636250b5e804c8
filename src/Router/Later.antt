-- ===== src/Router/Later.antt =====
-- What later requests leave of a revoked family.
use auth_n_z.Common.{
  Bool-cases, or_default, Option-cases, strip_quotes, before, contains, contains-add, ℕ, String,
  ◌≡◌, sym, ap, subst, inl, inr, true, not, ◌&&◌, Option, none, some, arith, ◌==◌, text_or,
}
use auth_n_z.Common.Jwt.{Claims, Decoded, claims, expired, invalid}
use auth_n_z.Session.Store.{Sessions}
use auth_n_z.Device.Service.{Devices}
use auth_n_z.Token.Claims.{num_claim}
use auth_n_z.Token.Service.{revoke_family}
use auth_n_z.Token.Revocation.{is_token_revoked-revoke_token}
use auth_n_z.Auth.Login.{Services}
use auth_n_z.Router.Refresh.{
  Draw, Lifetimes, Checked, passed, refused, claim_of, App, end_family, check_claims, check_decoded,
  check_refresh, user_of, revoke_own, rotate, rotate_checked, refresh_tokens,
}
use auth_n_z.Router.Logout.{LogoutRequest, logout}
use auth_n_z.Router.Granted.{is_used, checked_in_memory}
use auth_n_z.Token.Verify.{family_listed}

-- A later request of anyone: for new tokens, to log out, or one that changes only sessions and
-- trusted devices.
pub data LaterRequest (V : Services) (s s' : App V) : Type 0 where
  refreshes :
      (now : ℕ) (lifetimes : Lifetimes) (draw : Draw) (body cookie : Option String) (users : V.U.Db)
      → (refresh_tokens V now lifetimes draw body cookie users s).1 ≡ s'
      → LaterRequest V s s'
  logs_out :
      (now : ℕ) (user_id : String) (c : Claims) (req : LogoutRequest)
      → (logout V now user_id c req s).1 ≡ s'
      → LaterRequest V s s'
  changes :
      (sessions : Sessions V.S) (devices : Devices)
      → record s { sessions = sessions; devices = devices } ≡ s'
      → LaterRequest V s s'

-- any number of later requests
pub data Later (V : Services) (s : App V) : App V → Type 0 where
  here : Later V s s
  next : {s' s'' : App V} → Later V s s' → LaterRequest V s' s'' → Later V s s''

module _ (V : Services) (fid : String) where
  -- the family is revoked in memory
  abbrev pub HasEnded : App V → Type 0
  HasEnded s = (s.tokens.redis ≡ none) × (contains fid s.tokens.revoked_families ≡ true)

  revoke_own-HasEnded :
      (now : ℕ) (c : Claims) (s : App V) → HasEnded s → HasEnded (revoke_own V now c s)
  unfolding revoke_own
  revoke_own-HasEnded now c s (off, ended) =
      let jti = claim_of "jti" c in
      let (revoked, off', kept) =
        is_token_revoked-revoke_token V.R V.jwt now jti jti
          (some (or_default (num_claim "exp" c) 0)) s.tokens off in
      elim (Bool-cases (jti == "")) [
        | inl empty ↦ rw (revoke_own, empty) (off, ended)
        | inr given ↦ rw (revoke_own, given) (off', rw kept ended)
      ]

  end_family-HasEnded : (c : Claims) (s : App V) → HasEnded s → HasEnded (end_family V c s)
  unfolding end_family revoke_family
  end_family-HasEnded c s (off, ended) =
      let more = contains-add (claim_of "family_id" c) fid s.tokens.revoked_families in
      elim (Bool-cases (claim_of "family_id" c == "")) [
        | inl empty ↦ rw (end_family, empty) (off, ended)
        | inr given ↦ rw (end_family, given) (ground arith, ground (arith, more))
      ]

  check_claims-HasEnded : (c : Claims) (s : App V) → HasEnded s → HasEnded (check_claims V c s).1
  check_claims-HasEnded c s (off, ended) =
      let same = ap (λ (r : Checked × App V). r.1) (checked_in_memory V c s off) in
      elim (Bool-cases (
        claim_of "type" c == "refresh"
        && not (family_listed V.R V.jwt c s.tokens)
        && is_used V c s.tokens)) [
          | inl used ↦
              let state : (check_claims V c s).1 ≡ end_family V c s = ground arith in
              subst HasEnded (sym state) (end_family-HasEnded c s (off, ended))
          | inr unused ↦
              let state : (check_claims V c s).1 ≡ s = ground arith in
              subst HasEnded (sym state) (off, ended)
        ]

  check_decoded-HasEnded : (d : Decoded) (s : App V) → HasEnded s → HasEnded (check_decoded V d s).1
  unfolding check_decoded
  check_decoded-HasEnded (claims c) s h = check_claims-HasEnded c s h
  check_decoded-HasEnded expired s h = h
  check_decoded-HasEnded (invalid e) s h = h

  check_refresh-HasEnded :
      (at : ℕ) (token : String) (s : App V) → HasEnded s → HasEnded (check_refresh V at token s).1
  unfolding check_refresh
  check_refresh-HasEnded at token s h = elim (Bool-cases (token == "")) [
    | inl empty ↦ rw (check_refresh, empty) h
    | inr given ↦
        rw (check_refresh, given)
          (check_decoded-HasEnded (V.jwt.decode at (strip_quotes token)) s h)
  ]

  rotate-HasEnded :
      (at : ℕ) (lifetimes : Lifetimes) (draw : Draw) (c : Claims) (users : V.U.Db) (s : App V)
      → HasEnded s
      → HasEnded (rotate V at lifetimes draw c users s).1
  unfolding rotate
  rotate-HasEnded at lifetimes draw c users s h = elim (Option-cases (user_of V c users)) [
    | inl missing ↦ rw (rotate, missing) h
    | inr (user, there) ↦ elim (Bool-cases user.is_active) [
      | inl active ↦ rw (rotate, there, active) (revoke_own-HasEnded at c s h)
      | inr off ↦ rw (rotate, there, off) h
    ]
  ]

  rotate_checked-HasEnded :
      (at : ℕ) (lifetimes : Lifetimes) (draw : Draw) (users : V.U.Db) (checked : Checked × App V)
      → HasEnded checked.1
      → HasEnded (rotate_checked V at lifetimes draw users checked).1
  unfolding rotate_checked
  rotate_checked-HasEnded at lifetimes draw users (refused detail, s) h = h
  rotate_checked-HasEnded at lifetimes draw users (passed c, s) h =
      rotate-HasEnded at lifetimes draw c users s h

  refresh_tokens-HasEnded :
      (at : ℕ) (lifetimes : Lifetimes) (draw : Draw) (body cookie : Option String) (users : V.U.Db)
      (s : App V)
      → HasEnded s
      → HasEnded (refresh_tokens V at lifetimes draw body cookie users s).1
  unfolding refresh_tokens
  refresh_tokens-HasEnded at lifetimes draw body cookie users s h =
      let token = text_or body (or_default cookie "") in
      rotate_checked-HasEnded at lifetimes draw users (check_refresh V at token s)
        (check_refresh-HasEnded at token s h)

  logout-HasEnded :
      (at : ℕ) (user_id : String) (c : Claims) (req : LogoutRequest) (s : App V)
      → HasEnded s
      → HasEnded (logout V at user_id c req s).1
  unfolding logout
  logout-HasEnded at user_id c req s h =
      let (off, ended) = revoke_own-HasEnded at c s h in (ground arith, ground arith)

  LaterRequest-HasEnded : (s s' : App V) → LaterRequest V s s' → HasEnded s → HasEnded s'
  LaterRequest-HasEnded s s' (refreshes at lifetimes draw body cookie users e) h =
      subst HasEnded e (refresh_tokens-HasEnded at lifetimes draw body cookie users s h)
  LaterRequest-HasEnded s s' (logs_out at user_id c req e) h =
      subst HasEnded e (logout-HasEnded at user_id c req s h)
  LaterRequest-HasEnded s s' (changes sessions devices e) h = subst HasEnded e h

  pub Later-HasEnded : (s : App V) {s' : App V} → Later V s s' → HasEnded s → HasEnded s'
  Later-HasEnded s here h = h
  Later-HasEnded s (next {s'} {s''} before r) h =
      LaterRequest-HasEnded s' s'' r (Later-HasEnded s before h)
