-- ===== src/Auth/Challenges.antt =====
-- The pending second-factor challenges.
use auth_n_z.Common.{
  if◌then◌else◌, is_some, lookup, insert, remove, lookup-insert, lookup-remove, ℕ, String, ◌≡◌,
  Option, none, some, [], ◌∷◌, arith, ◌==◌, text_append,
}
use auth_n_z.Common.Redis.{Redis}
use auth_n_z.Auth.State.{Auth, Challenge, Json, call}

abbrev pub challenge_key : String → String
challenge_key id = text_append "mfa_challenge:" id

module _ (R : Redis) (json : Json) where
  -- `if raw: return json.loads(raw)`; `none` if there is no text, or one that does not parse
  unfoldable pub read_challenge : Option (Option String) → Option Challenge
  read_challenge (some (some raw)) = if raw == "" then none else json.loads raw
  read_challenge (some none) = none
  read_challenge none = none

  -- `_get_mfa_challenge`
  unfoldable pub get_mfa_challenge : String → Auth R → Option Challenge × Auth R
  get_mfa_challenge id s =
      let (raw, s') = call R (R.get (challenge_key id)) s in
      elim (read_challenge raw) [ none ↦ (lookup id s'.pending, s') | some c ↦ (some c, s') ]

  -- `_save_mfa_challenge`
  unfoldable pub save_mfa_challenge : String → Challenge → ℕ → Auth R → Auth R
  save_mfa_challenge id challenge ttl s =
      let (done, s') = call R (R.set (challenge_key id) (json.dumps challenge) ttl) s in
      if is_some done then s' else record s' { pending = insert id challenge s'.pending }

  -- `_delete_mfa_challenge`
  unfoldable pub delete_mfa_challenge : String → Auth R → Auth R
  delete_mfa_challenge id s =
      let s' = (call R (R.delete (challenge_key id ∷ [])) s).1 in
      record s' { pending = remove id s'.pending }

  pub get-save_mfa_challenge :
      (id other : String) (challenge : Challenge) (ttl : ℕ) (s : Auth R)
      → s.redis ≡ none
      → let s' = save_mfa_challenge id challenge ttl s in
        ((get_mfa_challenge other s').0
          ≡ (if id == other then some challenge else lookup other s.pending))
        × (s'.redis ≡ none)
  unfolding get_mfa_challenge save_mfa_challenge read_challenge call
  get-save_mfa_challenge id other challenge ttl s off =
      ground (arith, lookup-insert id other challenge s.pending)

  pub get-delete_mfa_challenge :
      (id other : String) (s : Auth R)
      → s.redis ≡ none
      → let s' = delete_mfa_challenge id s in
        ((get_mfa_challenge other s').0 ≡ (if id == other then none else lookup other s.pending))
        × (s'.redis ≡ none)
  unfolding get_mfa_challenge delete_mfa_challenge read_challenge call
  get-delete_mfa_challenge id other s off = ground (arith, lookup-remove id other s.pending)
