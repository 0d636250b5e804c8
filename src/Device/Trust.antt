-- ===== src/Device/Trust.antt =====
-- When a trusted device is accepted in place of the second factor.
use auth_n_z.Common.{
  Bool-cases, is_some, or_default, Option-cases, strip, ℕ, ◌+◌, ◌*◌, ◌≤◌, String, ◌≡◌, refl, ◌≢◌,
  ◌↔◌, inl, inr, true, false, Option, none, some, ◌∷◌, arith, ◌==◌, eq_iff, eq_refl,
}
use auth_n_z.Device.Label.{parse_device_label}
use auth_n_z.Device.Service.{
  Device, Devices, first_where, is_token_of, hash_token, parse_id, same_agent, check_device,
  verify_trusted_device, create_trusted_device,
}

same_agent_iff :
    (user_agent : Option String) (stored : String)
    → (same_agent user_agent stored ≡ true) ↔ ((user_agent ≡ some stored) × (stored ≢ ""))
unfolding same_agent
same_agent_iff none stored = ground arith
same_agent_iff (some presented) stored =
    ground (arith, eq_iff presented stored, eq_iff stored "", eq_iff presented "")

check_device_iff :
    (now : ℕ) (user_agent ip : Option String) (device : Device) (ds : Devices)
    → (is_some (check_device now user_agent ip device ds).0 ≡ true) ↔ (
        (now ≤ device.expires_at)
        × (user_agent ≡ some device.user_agent)
        × (device.user_agent ≢ ""))
unfolding check_device
check_device_iff now user_agent ip device ds =
    ground (arith, same_agent_iff user_agent device.user_agent)

module _ (uuid : String → Option String) (sha256 : String → String) where
  verify_found :
      (now : ℕ) (user_id raw_token : String) (user_agent ip : Option String) (ds : Devices)
      (uid : String) (device : Device)
      → strip raw_token ≢ ""
      → parse_id uuid user_id ≡ some uid
      → first_where (is_token_of uid (hash_token sha256 (strip raw_token))) ds ≡ some device
      → verify_trusted_device uuid sha256 now user_id raw_token user_agent ip ds
        ≡ check_device now user_agent ip device ds
  unfolding verify_trusted_device
  verify_found now user_id raw_token user_agent ip ds uid device shown parsed found =
      let not_blank : (strip raw_token == "") ≡ false =
        ground (arith, eq_iff (strip raw_token) "") in
      rw (not_blank, parsed, found) refl

  -- A trusted-device token is accepted exactly if it is not blank, the user's id parses, and the
  -- first row with that user and the token's digest has not expired and was enrolled with the very
  -- User-Agent that is presented, which is not empty.
  pub verify_trusted_device_iff :
      (now : ℕ) (user_id raw_token : String) (user_agent ip : Option String) (ds : Devices)
      → (is_some (verify_trusted_device uuid sha256 now user_id raw_token user_agent ip ds).0
          ≡ true)
        ↔ ((strip raw_token ≢ "")
            × ((uid : String) × (device : Device) × (parse_id uuid user_id ≡ some uid)
                × (first_where (is_token_of uid (hash_token sha256 (strip raw_token))) ds
                    ≡ some device)
                × (now ≤ device.expires_at)
                × (user_agent ≡ some device.user_agent)
                × (device.user_agent ≢ "")))
  unfolding verify_trusted_device
  verify_trusted_device_iff now user_id raw_token user_agent ip ds = (
    λ accepted. elim (Bool-cases (strip raw_token == "")) [
      | inl empty ↦ ground arith
      | inr shown ↦ elim (Option-cases (parse_id uuid user_id)) [
        | inl bad ↦ ground arith
        | inr (uid, parsed) ↦
            let digest = hash_token sha256 (strip raw_token) in
            elim (Option-cases (first_where (is_token_of uid digest) ds)) [
              | inl unknown ↦ ground arith
              | inr (device, found) ↦
                  let (alive, agent, filled) =
                    (check_device_iff now user_agent ip device ds).0 (ground arith) in
                  (
                    ground (arith, eq_iff (strip raw_token) ""),
                    (uid, device, parsed, found, alive, agent, filled),
                  )
            ]
      ]
    ],
    λ (shown, (uid, device, parsed, found, alive, agent, filled)).
        rw (verify_found now user_id raw_token user_agent ip ds uid device shown parsed found)
          ((check_device_iff now user_agent ip device ds).1 (alive, agent, filled)),
  )

  -- A device token that is not blank and has no space at its ends, made for a user whose id parses
  -- in a browser whose User-Agent is not empty, is accepted for that user from that User-Agent until
  -- the days it was made for are over.
  pub verify-create_trusted_device :
      (device_id raw_token : String) (now later : ℕ) (user_id uid user_agent : String)
      (ip ip' : Option String) (days_valid : ℕ) (ds : Devices)
      → parse_id uuid user_id ≡ some uid
      → strip raw_token ≡ raw_token
      → raw_token ≢ ""
      → user_agent ≢ ""
      → later ≤ now + days_valid * 86400
      → let made =
          create_trusted_device uuid sha256 device_id raw_token now user_id
            (some user_agent)
            ip
            days_valid
            ds in
        is_some
          (verify_trusted_device uuid sha256 later user_id raw_token (some user_agent) ip' made.1).0
        ≡ true
  unfolding create_trusted_device parse_id first_where hash_token
  verify-create_trusted_device device_id raw_token now later user_id uid user_agent ip ip'
        days_valid ds parsed tidy some_token some_agent in_time =
      let stored : uuid (strip user_id) ≡ some uid = ground arith in
      let device : Device = record {
        id = device_id;
        user_id = uid;
        token_hash = hash_token sha256 raw_token;
        device_label = parse_device_label (some user_agent);
        user_agent = user_agent;
        ip_address = or_default ip "";
        created_at = now;
        expires_at = now + days_valid * 86400;
        last_used_at = now;
      } in
      let found : first_where (is_token_of uid (hash_token sha256 (strip raw_token))) (device ∷ ds)
          ≡ some device =
        ground (arith, eq_refl uid, eq_refl (sha256 (strip raw_token))) in
      rw (create_trusted_device, stored)
        ((verify_trusted_device_iff later user_id raw_token (some user_agent) ip' (device ∷ ds)).1
          (ground arith, (uid, device, parsed, found, in_time, refl, some_agent)))
