-- ===== src/Device/Revoked.antt =====
-- The trusted devices after one or all of them are revoked, and the list that a user sees.
use auth_n_z.Common.{
  ltb, Bool-cases, is_some, length, strip, ℕ, String, ◌≡◌, refl, ap, ◌∙◌, ◌≢◌, inl, inr, Bool, true,
  false, not, ◌&&◌, Option, none, some, [], ◌∷◌, arith, ◌==◌, eq_iff,
}
use auth_n_z.Device.Service.{
  Device, Devices, rows_where, first_where, is_token_of, parse_id, hash_token,
  verify_trusted_device, revoke_trusted_device, revoke_all_trusted_devices,
}

none_first :
    (p q : Device → Bool) (ds : Devices)
    → ((d : Device) → p d ≡ true → q d ≡ false)
    → first_where p (rows_where q ds) ≡ none
unfolding first_where rows_where
none_first p q [] apart = refl
none_first p q (d ∷ ds) apart = ground (arith, none_first p q ds apart, apart d)

same_first :
    (p q : Device → Bool) (ds : Devices)
    → ((d : Device) → p d ≡ true → q d ≡ true)
    → first_where p (rows_where q ds) ≡ first_where p ds
unfolding first_where rows_where
same_first p q [] within = refl
same_first p q (d ∷ ds) within = ground (arith, same_first p q ds within, within d)

any_selected :
    (p : Device → Bool) (ds : Devices)
    → ltb 0 (length (rows_where p ds)) ≡ is_some (first_where p ds)
unfolding first_where rows_where
any_selected p [] = ground arith
any_selected p (d ∷ ds) = ground (arith, any_selected p ds)

-- two selections one after the other, where they come to the same
rows_where-both :
    (p q p' q' : Device → Bool) (ds : Devices)
    → ((d : Device) → (p d && q d) ≡ (p' d && q' d))
    → rows_where p (rows_where q ds) ≡ rows_where p' (rows_where q' ds)
unfolding rows_where
rows_where-both p q p' q' [] same = refl
rows_where-both p q p' q' (d ∷ ds) same = ground (arith, same d, rows_where-both p q p' q' ds same)

rows_where-all : (ds : Devices) → rows_where (λ d. true) ds ≡ ds
unfolding rows_where
rows_where-all [] = refl
rows_where-all (d ∷ ds) = ap (λ r. d ∷ r) (rows_where-all ds)

module _ (uuid : String → Option String) (sha256 : String → String) where
  verify_unknown :
      (now : ℕ) (user_id uid raw_token : String) (user_agent ip : Option String) (ds : Devices)
      → parse_id uuid user_id ≡ some uid
      → first_where (is_token_of uid (hash_token sha256 (strip raw_token))) ds ≡ none
      → verify_trusted_device uuid sha256 now user_id raw_token user_agent ip ds ≡ (none, ds)
  unfolding verify_trusted_device
  verify_unknown now user_id uid raw_token user_agent ip ds parsed unknown =
      elim (Bool-cases (strip raw_token == "")) [
        | inl empty ↦ rw (empty) refl
        | inr shown ↦ rw (shown, parsed, unknown) refl
      ]

  all_revoked :
      (user_id uid : String) (ds : Devices)
      → parse_id uuid user_id ≡ some uid
      → (revoke_all_trusted_devices uuid sha256 user_id ds).1
        ≡ rows_where (λ d. not (d.user_id == uid)) ds
  unfolding revoke_all_trusted_devices
  all_revoked user_id uid ds parsed = rw (revoke_all_trusted_devices, parsed) refl

  -- After all the trusted devices of a user whose id parses are revoked, no token is accepted for
  -- that user, and for a user with another id, the row that a token finds is the one it found
  -- before.
  pub revoke_all_trusted_devices-verify :
      (user_id uid : String) (ds : Devices)
      → parse_id uuid user_id ≡ some uid
      → let left = (revoke_all_trusted_devices uuid sha256 user_id ds).1 in
        ((now : ℕ) (raw_token : String) (user_agent ip : Option String)
          → verify_trusted_device uuid sha256 now user_id raw_token user_agent ip left
            ≡ (none, left))
        × ((other digest : String)
            → other ≢ uid
            → first_where (is_token_of other digest) left
              ≡ first_where (is_token_of other digest) ds)
  revoke_all_trusted_devices-verify user_id uid ds parsed =
      let kept = λ (d : Device). not (d.user_id == uid) in
      rw (all_revoked user_id uid ds parsed) (
        (λ now raw_token user_agent ip.
            let digest = hash_token sha256 (strip raw_token) in
            verify_unknown now user_id uid raw_token user_agent ip (rows_where kept ds) parsed
              (none_first (is_token_of uid digest) kept ds (λ d. ground arith))),
        λ other digest differs.
            same_first (is_token_of other digest) kept ds
              (λ d. ground (arith, eq_iff d.user_id other, eq_iff d.user_id uid)),
      )

  -- After one trusted device of a user is revoked, with ids that parse, the answer says whether
  -- the user had it; of the user's rows exactly those with another id are left, in order, and every
  -- row of another user is.
  pub revoke_trusted_device-rows :
      (user_id uid device_id did : String) (ds : Devices)
      → parse_id uuid user_id ≡ some uid
      → parse_id uuid device_id ≡ some did
      → let (answer, left) = revoke_trusted_device uuid sha256 user_id device_id ds in
        (answer ≡ is_some (first_where (λ d. d.id == did && d.user_id == uid) ds))
        × (rows_where (λ d. d.user_id == uid) left
            ≡ rows_where (λ d. not (d.id == did)) (rows_where (λ d. d.user_id == uid) ds))
        × (rows_where (λ d. not (d.user_id == uid)) left
            ≡ rows_where (λ d. not (d.user_id == uid)) ds)
  unfolding revoke_trusted_device
  revoke_trusted_device-rows user_id uid device_id did ds parsed parsed' =
      let chosen = λ (d : Device). d.id == did && d.user_id == uid in
      rw (revoke_trusted_device, parsed, parsed')
        (
          any_selected chosen ds,
          rows_where-both (λ d. d.user_id == uid) (λ d. not (chosen d)) (λ d. not (d.id == did))
              (λ d. d.user_id == uid) ds (λ d. ground arith),
          rows_where-both (λ d. not (d.user_id == uid)) (λ d. not (chosen d)) (λ d. true)
                (λ d. not (d.user_id == uid)) ds (λ d. ground arith)
              ∙ rows_where-all (rows_where (λ d. not (d.user_id == uid)) ds),
        )
