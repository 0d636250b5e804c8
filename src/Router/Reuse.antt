-- ===== src/Router/Reuse.antt =====
-- What happens when a refresh token is shown again after its exchange.
use auth_n_z.Common.{
  or_default, Option-cases, ℕ, String, ◌≡◌, refl, sym, ap, ◌∙◌, subst, ◌≢◌, inl, inr, Bool, true,
  false, Option, none, some, arith, ◌==◌, eq_iff, eq_refl,
}
use auth_n_z.Common.Jwt.{Claims}
use auth_n_z.Identity.{User}
use auth_n_z.Token.Claims.{num_claim}
use auth_n_z.Token.Service.{Tokens, is_family_revoked, revoke_token}
use auth_n_z.Token.Revocation.{is_revoked_in_memory, is_token_revoked-revoke_token}
use auth_n_z.Token.Family.{is_family_revoked-revoke_family}
use auth_n_z.Token.Verify.{family_listed}
use auth_n_z.Session.Index.{IsIndexed}
use auth_n_z.Session.Ended.{HoldsNone, delete_all_user_sessions-HoldsNone}
use auth_n_z.Router.Later.{Later, Later-HasEnded}
use auth_n_z.Auth.Login.{Services}
use auth_n_z.Router.Refresh.{
  Answer, rotated, rejected, passed, Draw, Lifetimes, reuse_detail, claim_of, App, end_family,
  check_claims, user_of, revoke_own, rotate, rotate_checked, refresh_tokens,
}
use auth_n_z.Router.Granted.{
  is_rotated, shown, is_used, checked_in_memory, may_rotate, checked_answers,
  refresh_tokens-may_rotate, Shows, checked_as,
}

module _ (V : Services) where
  rotate_state :
      (now : ℕ) (lifetimes : Lifetimes) (draw : Draw) (c : Claims) (users : V.U.Db) (s : App V)
      (user : User)
      → user_of V c users ≡ some user
      → user.is_active ≡ true
      → (rotate V now lifetimes draw c users s).1 ≡ revoke_own V now c s
  unfolding rotate
  rotate_state now lifetimes draw c users s user there active = rw (rotate, there, active) refl

  -- the state after an exchange
  rotated_cases :
      (now : ℕ) (lifetimes : Lifetimes) (draw : Draw) (c : Claims) (users : V.U.Db) (s s' : App V)
      (access refresh user_id : String)
      → s.tokens.redis ≡ none
      → rotate_checked V now lifetimes draw users (check_claims V c s)
        ≡ (rotated access refresh user_id, s')
      → (claim_of "type" c ≡ "refresh")
        × (family_listed V.R V.jwt c s.tokens ≡ false)
        × (revoke_own V now c s ≡ s')
  unfolding rotate_checked rotate
  rotated_cases now lifetimes draw c users s s' access refresh user_id off h =
      let good =
        sym (checked_answers V now lifetimes draw c users s off)
        ∙ ap (λ (r : Answer × App V). is_rotated r.0) h in
      let is_refresh : (claim_of "type" c == "refresh") ≡ true = ground arith in
      let free : family_listed V.R V.jwt c s.tokens ≡ false = ground arith in
      let fresh : is_used V c s.tokens ≡ false = ground arith in
      let passes : check_claims V c s ≡ (passed c, s) =
        rw (checked_in_memory V c s off, is_refresh, free, fresh) refl in
      elim (Option-cases (user_of V c users)) [
        | inl missing ↦ absurd (ground arith)
        | inr (user, there) ↦
            let active : user.is_active ≡ true = ground arith in
            let answers = ap (rotate_checked V now lifetimes draw users) passes in
            let state = rotate_state now lifetimes draw c users s user there active in
            (
              ground (arith, eq_iff (claim_of "type" c) "refresh"),
              free,
              sym state ∙ ap (λ r. r.1) (sym answers ∙ h),
            )
      ]

  pub used_own :
      (now : ℕ) (c : Claims) (s : App V)
      → s.tokens.redis ≡ none
      → claim_of "jti" c ≢ ""
      → (is_used V c (revoke_own V now c s).tokens ≡ true)
        × ((revoke_own V now c s).tokens.redis ≡ none)
        × ((revoke_own V now c s).tokens.revoked_families ≡ s.tokens.revoked_families)
  unfolding revoke_own
  used_own now c s off named =
      let jti = claim_of "jti" c in
      let given : (jti == "") ≡ false = ground (arith, eq_iff jti "") in
      let t =
        (revoke_token V.R V.jwt now jti (some (or_default (num_claim "exp" c) 0)) s.tokens).1 in
      let (revoked, off', kept) =
        is_token_revoked-revoke_token V.R V.jwt now jti jti
          (some (or_default (num_claim "exp" c) 0)) s.tokens off in
      let listed = is_revoked_in_memory V.R V.jwt jti t off' in
      rw given (ground (arith, ap (λ (r : Bool × Tokens V.R). r.0) listed, eq_refl jti), off', kept)

  family_after :
      (c c' : Claims) (s : App V)
      → s.tokens.redis ≡ none
      → claim_of "family_id" c ≢ ""
      → claim_of "family_id" c' ≡ claim_of "family_id" c
      → ((end_family V c s).tokens.redis ≡ none)
        × (family_listed V.R V.jwt c' (end_family V c s).tokens ≡ true)
  unfolding end_family is_family_revoked
  family_after c c' s off named same =
      let fid = claim_of "family_id" c in
      let given : (fid == "") ≡ false = ground (arith, eq_iff fid "") in
      let (revoked, off', kept) = is_family_revoked-revoke_family V.R fid fid 604800 s.tokens off in
      rw (given, same) (off', ground (arith, eq_refl fid))

  -- a used token is answered as a reuse
  reused :
      (now : ℕ) (lifetimes : Lifetimes) (draw : Draw) (body cookie : Option String) (c : Claims)
      (users : V.U.Db) (s : App V)
      → s.tokens.redis ≡ none
      → Shows V now (shown body cookie) c
      → claim_of "type" c ≡ "refresh"
      → family_listed V.R V.jwt c s.tokens ≡ false
      → is_used V c s.tokens ≡ true
      → refresh_tokens V now lifetimes draw body cookie users s
        ≡ (rejected reuse_detail, end_family V c s)
  unfolding refresh_tokens rotate_checked
  reused now lifetimes draw body cookie c users s off again is_refresh free used =
      rw (refresh_tokens, checked_as V now (shown body cookie) c s again)
        (rw (checked_in_memory V c s off, is_refresh, free, used) refl)

  ended_refused :
      (now : ℕ) (body cookie : Option String) (c : Claims) (users : V.U.Db) (s : Tokens V.R)
      → family_listed V.R V.jwt c s ≡ true
      → Shows V now (shown body cookie) c
      → may_rotate V now (shown body cookie) users s ≡ false
  ended_refused now body cookie c users s ended (filled, decoded) =
      rw decoded (ground (arith, ended))

  -- after a reuse no token of the family is exchanged
  reused_refused :
      (last : ℕ) (lifetimes : Lifetimes) (draw : Draw) (body cookie : Option String) (c c' : Claims)
      (users : V.U.Db) (s s' : App V)
      → s.tokens.redis ≡ none
      → claim_of "family_id" c ≢ ""
      → claim_of "family_id" c' ≡ claim_of "family_id" c
      → Later V (end_family V c s) s'
      → Shows V last (shown body cookie) c'
      → is_rotated (refresh_tokens V last lifetimes draw body cookie users s').0 ≡ false
  reused_refused last lifetimes draw body cookie c c' users s s' off in_family same after again =
      let fid = claim_of "family_id" c in
      let given : (fid == "") ≡ false = ground (arith, eq_iff fid "") in
      let (off', ended) = family_after c c s off in_family refl in
      let (off'', still) =
        Later-HasEnded V fid (end_family V c s) after (off', ground (arith, ended)) in
      refresh_tokens-may_rotate V last lifetimes draw body cookie users s' off''
      ∙ ended_refused last body cookie c' users s'.tokens (rw (same, given) still) again

  ended_sessions :
      (c : Claims) (s : App V)
      → claim_of "sub" c ≢ ""
      → IsIndexed V.S s.sessions
      → HoldsNone V.S (claim_of "sub" c) (end_family V c s).sessions
  unfolding end_family
  ended_sessions c s own indexed =
      let given : (claim_of "sub" c == "") ≡ false = ground (arith, eq_iff (claim_of "sub" c) "") in
      rw (end_family, given)
        (delete_all_user_sessions-HoldsNone V.S (claim_of "sub" c) s.sessions indexed)

  -- Without Redis, a refresh token with an identifier of its own is good for one exchange: shown
  -- again, in the body or the cookie and at any later time at which it decodes to the same payload, it
  -- is answered as a reuse; no session of the user that it names is then held in memory, if every
  -- session held there was in the index; and if it names a family, then after any number of later
  -- requests for new tokens, logouts and changes of sessions and devices, no token of that family is
  -- exchanged, in the body or the cookie.
  pub refresh_tokens_once :
      (now later : ℕ) (lifetimes : Lifetimes) (draw draw' : Draw)
      (body cookie body' cookie' : Option String) (c : Claims) (users users' : V.U.Db)
      (s s' : App V) (access refresh user_id : String)
      → s.tokens.redis ≡ none
      → claim_of "jti" c ≢ ""
      → Shows V now (shown body cookie) c
      → Shows V later (shown body' cookie') c
      → refresh_tokens V now lifetimes draw body cookie users s
        ≡ (rotated access refresh user_id, s')
      → let (answer, s'') = refresh_tokens V later lifetimes draw' body' cookie' users' s' in
        (answer ≡ rejected reuse_detail)
        × (claim_of "sub" c ≢ ""
            → IsIndexed V.S s'.sessions
            → HoldsNone V.S (claim_of "sub" c) s''.sessions)
        × ((last : ℕ) (lifetimes' : Lifetimes) (draw'' : Draw) (body'' cookie'' : Option String)
              (c' : Claims) (users'' : V.U.Db) (s3 : App V)
            → claim_of "family_id" c ≢ ""
            → claim_of "family_id" c' ≡ claim_of "family_id" c
            → Later V s'' s3
            → Shows V last (shown body'' cookie'') c'
            → is_rotated (refresh_tokens V last lifetimes' draw'' body'' cookie'' users'' s3).0
              ≡ false)
  unfolding refresh_tokens rotate_checked
  refresh_tokens_once now later lifetimes draw draw' body cookie body' cookie' c users users' s s'
        access refresh user_id off named first again h =
      let checked = checked_as V now (shown body cookie) c s first in
      let (is_refresh, free, same) =
        rotated_cases now lifetimes draw c users s s' access refresh user_id off
          (sym (ap (rotate_checked V now lifetimes draw users) checked) ∙ h) in
      let (used, off_own, kept) = used_own now c s off named in
      let off' = subst (λ (u : App V). u.tokens.redis ≡ none) same off_own in
      let used' = subst (λ (u : App V). is_used V c u.tokens ≡ true) same used in
      let kept' =
        subst (λ (u : App V). u.tokens.revoked_families ≡ s.tokens.revoked_families) same kept in
      let free' : family_listed V.R V.jwt c s'.tokens ≡ false = rw kept' free in
      let gone =
        reused later lifetimes draw' body' cookie' c users' s' off' again is_refresh free' used' in
      (
        ap (λ (r : Answer × App V). r.0) gone,
        λ own indexed.
            subst (λ (r : Answer × App V). HoldsNone V.S (claim_of "sub" c) r.1.sessions) (sym gone)
              (ended_sessions c s' own indexed),
        λ last lifetimes' draw'' body'' cookie'' c' users'' s3 in_family same_family after shown_r1.
            reused_refused last lifetimes' draw'' body'' cookie'' c c' users'' s' s3 off' in_family
              same_family (subst (λ (r : Answer × App V). Later V r.1 s3) gone after) shown_r1,
      )
