-- ===== src/Guards/SignedIn.antt =====
-- Whom `require_auth` lets in.
use auth_n_z.Common.{
  Bool-cases, or_default, Option-cases, strip_quotes, lower, strip, drop, lookup, ℕ, String, ◌≡◌,
  refl, ap, ◌∙◌, ◌≢◌, ◌⊎◌, inl, inr, Bool, true, false, not, ◌&&◌, Option, some, [], arith, ◌==◌,
  starts_with, eq_iff,
}
use auth_n_z.Common.Jwt.{Claim, Claims, texts}
use auth_n_z.Token.Claims.{text_claim}
use auth_n_z.Token.Service.{
  Tokens, Verified, payload, token_revoked, family_revoked, token_expired, token_invalid,
  decode_and_verify,
}
use auth_n_z.Auth.Login.{Services}
use auth_n_z.Auth.Context.{
  Context, failed, of_token, of_session, clean_token, active_user, context_of, context_of_verified,
  authenticate_token,
}
use auth_n_z.Auth.Accepted.{speaks_for, is_active_id}
use auth_n_z.Guards.Require.{
  Request, CurrentUser, Guarded, granted, nobody, refused, token_of, header_token, without_secrets,
  refuse, current_user, guard_context, require_auth,
}

abbrev pub is_granted : Guarded → Bool
is_granted (granted cu) = true
is_granted nobody = false
is_granted (refused status detail) = false

-- Where a request brings its token: as credentials, without any in a bearer header, and without either
-- in its cookie. What is missing counts as an empty text.
pub data Brings (req : Request) (token : String) : Type 0 where
  as_credentials : strip (or_default req.credentials "") ≡ token → token ≢ "" → Brings req token
  in_header :
      strip (or_default req.credentials "") ≡ ""
      → starts_with (lower (or_default req.authorization "")) "bearer " ≡ true
      → strip (drop 7 (or_default req.authorization "")) ≡ token
      → token ≢ ""
      → Brings req token
  in_cookie :
      strip (or_default req.credentials "") ≡ ""
      → (starts_with (lower (or_default req.authorization "")) "bearer " ≡ true
          → strip (drop 7 (or_default req.authorization "")) ≡ "")
      → strip_quotes (or_default req.access_cookie "") ≡ token
      → token ≢ ""
      → Brings req token

token_of-Brings :
    (req : Request) (token : String) → Brings req token → (token_of req ≡ token) × (token ≢ "")
unfolding token_of header_token
token_of-Brings req token (as_credentials own filled) =
    (ground (arith, eq_iff (strip (or_default req.credentials "")) ""), filled)
token_of-Brings req token (in_header own bearer header filled) = (
  ground (
    arith,
    eq_iff (strip (or_default req.credentials "")) "",
    eq_iff (strip (drop 7 (or_default req.authorization ""))) "",
  ),
  filled,
)
token_of-Brings req token (in_cookie own header cookie filled) = (
  ground (
    arith,
    eq_iff (strip (or_default req.credentials "")) "",
    eq_iff (strip (drop 7 (or_default req.authorization ""))) "",
  ),
  filled,
)

token_of-cases : (req : Request) → (token_of req ≡ "") ⊎ Brings req (token_of req)
unfolding token_of header_token
token_of-cases req =
    let own = strip (or_default req.credentials "") in
    let bearer = starts_with (lower (or_default req.authorization "")) "bearer " in
    let header = strip (drop 7 (or_default req.authorization "")) in
    let cookie = strip_quotes (or_default req.access_cookie "") in
    elim (Bool-cases (own == "")) [
      | inr given ↦ inr (as_credentials (ground arith) (λ e. ground (arith, eq_iff own "")))
      | inl none_given ↦
          let no_own : own ≡ "" = ground (arith, eq_iff own "") in
          elim (Bool-cases (bearer && not (header == ""))) [
            | inl in_head ↦ inr (
                in_header no_own (ground arith) (ground arith)
                  (λ e. ground (arith, eq_iff header "")))
            | inr not_in_head ↦
                let no_header : bearer ≡ true → header ≡ "" =
                  λ b. ground (arith, eq_iff header "") in
                elim (Bool-cases (cookie == "")) [
                  | inl no_cookie ↦ inl (ground (arith, eq_iff cookie ""))
                  | inr there ↦ inr (
                      in_cookie no_own no_header (ground arith)
                        (λ e. ground (arith, eq_iff cookie "")))
                ]
          ]
    ]

module _ (V : Services) where
  user_granted :
      (auto_error : Bool) (user_id : String) (c : Claims) (users : V.U.Db)
      → is_granted (current_user V auto_error user_id c users) ≡ is_active_id V user_id users
  unfolding current_user refuse is_active_id
  user_granted auto_error user_id c users = elim (Option-cases (V.U.get_by_id user_id users)) [
    | inl missing ↦ ground arith
    | inr (u, there) ↦ ground arith
  ]

  of_active :
      (c : Claims) (users : V.U.Db)
      → speaks_for V (payload c) users ≡ true
      → (username : String) × (roles : Option Claim) × (context_of V c users
          ≡ of_token (or_default (text_claim "sub" c) "") username roles c)
  unfolding context_of active_user speaks_for is_active_id
  of_active c users speaks =
      elim (Option-cases (V.U.get_by_id (or_default (text_claim "sub" c) "") users)) [
        | inl missing ↦ absurd (ground arith)
        | inr (u, there) ↦
            (u.username, some (or_default (lookup "roles" c) (texts u.roles)), ground arith)
      ]

  claims_granted :
      (auto_error : Bool) (c : Claims) (users : V.U.Db)
      → is_granted (guard_context V auto_error (context_of V c users) users)
        ≡ speaks_for V (payload c) users
  unfolding guard_context context_of active_user refuse speaks_for is_active_id
  claims_granted auto_error c users =
      let id = or_default (text_claim "sub" c) "" in
      elim (Bool-cases (speaks_for V (payload c) users)) [
        | inl speaks ↦
            let (username, roles, same) = of_active c users speaks in
            ap (λ x. is_granted (guard_context V auto_error x users)) same
            ∙ ground (arith, user_granted auto_error id c users)
        | inr silent ↦ elim (Option-cases (V.U.get_by_id id users)) [
          | inl missing ↦ ground arith
          | inr (u, there) ↦ ground arith
        ]
      ]

  verified_granted :
      (auto_error : Bool) (v : Verified) (users : V.U.Db)
      → is_granted (guard_context V auto_error (context_of_verified V v users) users)
        ≡ speaks_for V v users
  unfolding context_of_verified guard_context refuse speaks_for
  verified_granted auto_error (payload c) users = claims_granted auto_error c users
  verified_granted auto_error token_revoked users = ground arith
  verified_granted auto_error family_revoked users = ground arith
  verified_granted auto_error token_expired users = ground arith
  verified_granted auto_error (token_invalid e) users = ground arith

  shown_without_secrets :
      (auto_error : Bool) (user_id : String) (c : Claims) (users : V.U.Db) (cu : CurrentUser)
      → current_user V auto_error user_id c users ≡ granted cu
      → (cu.user.metadata.mfa_secret ≡ "")
        × (cu.user.metadata.backup_codes ≡ [])
        × (cu.user.is_active ≡ true)
  unfolding current_user refuse without_secrets
  shown_without_secrets auto_error user_id c users cu h =
      elim (Option-cases (V.U.get_by_id user_id users)) [
        | inl missing ↦ absurd (ground arith)
        | inr (u, there) ↦ elim (Bool-cases u.is_active) [
          | inr off ↦ absurd (ground arith)
          | inl active ↦ (ground arith, ground arith, ground arith)
        ]
      ]

  context_without_secrets :
      (auto_error : Bool) (context : Context) (users : V.U.Db) (cu : CurrentUser)
      → guard_context V auto_error context users ≡ granted cu
      → (cu.user.metadata.mfa_secret ≡ "")
        × (cu.user.metadata.backup_codes ≡ [])
        × (cu.user.is_active ≡ true)
  unfolding guard_context refuse
  context_without_secrets auto_error (failed reason) users cu h = absurd (ground arith)
  context_without_secrets auto_error (of_session user_id username at fields) users cu h =
      absurd (ground arith)
  context_without_secrets auto_error (of_token user_id username roles c) users cu h =
      shown_without_secrets auto_error user_id c users cu h

  silent_nobody :
      (context : Context) (users : V.U.Db)
      → is_granted (guard_context V false context users) ≡ false
      → guard_context V false context users ≡ nobody
  unfolding guard_context current_user refuse
  silent_nobody (failed reason) users h = refl
  silent_nobody (of_session user_id username at fields) users h = refl
  silent_nobody (of_token user_id username roles claims) users h =
      elim (Option-cases (V.U.get_by_id user_id users)) [
        | inl missing ↦ ground arith
        | inr (u, there) ↦ ground arith
      ]

  granted_by :
      (auto_error : Bool) (now : ℕ) (req : Request) (users : V.U.Db) (s : Tokens V.R)
      → is_granted (require_auth V auto_error now req users s).0 ≡ (
          not (token_of req == "")
          && speaks_for V (decode_and_verify V.R V.jwt now (clean_token (token_of req)) s).0 users)
  unfolding require_auth authenticate_token refuse
  granted_by auto_error now req users s =
      let verified = (decode_and_verify V.R V.jwt now (clean_token (token_of req)) s).0 in
      ground (arith, verified_granted auto_error verified users)

  -- A request that brings a token, as credentials, or else in its header, or else in its cookie, is let
  -- in exactly if `decode_and_verify` accepts that token, less any "Bearer " before it, of type access,
  -- whose subject is the id of an active user; a request that brings none is not let in. A guard that raises no error then
  -- answers a request that is not let in with no user. The user that is handed on is active and
  -- comes without its second-factor secret and backup codes.
  pub require_auth-speaks_for :
      (auto_error : Bool) (now : ℕ) (req : Request) (users : V.U.Db) (s : Tokens V.R)
      → let (answer, s'') = require_auth V auto_error now req users s in
        ((token : String)
          → Brings req token
          → is_granted answer
            ≡ speaks_for V (decode_and_verify V.R V.jwt now (clean_token token) s).0 users)
        × (((token : String) → ¬ Brings req token) → is_granted answer ≡ false)
        × (auto_error ≡ false → is_granted answer ≡ false → answer ≡ nobody)
        × ((cu : CurrentUser)
            → answer ≡ granted cu
            → (cu.user.metadata.mfa_secret ≡ "")
              × (cu.user.metadata.backup_codes ≡ [])
              × (cu.user.is_active ≡ true))
  unfolding require_auth authenticate_token refuse
  require_auth-speaks_for auto_error now req users s =
      let (verified, s') = decode_and_verify V.R V.jwt now (clean_token (token_of req)) s in
      let all = granted_by auto_error now req users s in
      (
        λ token brings.
            let (same, filled) = token_of-Brings req token brings in
            all ∙ rw same (ground (arith, eq_iff token "")),
        λ silent. elim (token_of-cases req) [
          | inl empty ↦ all ∙ ground (arith, eq_iff (token_of req) "")
          | inr brings ↦ absurd (silent (token_of req) brings)
        ],
        λ silent shut. ground (arith, silent_nobody (context_of_verified V verified users) users),
        λ cu let_in.
            context_without_secrets auto_error (context_of_verified V verified users) users cu
              (ground arith),
      )
