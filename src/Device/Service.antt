-- ===== src/Device/Service.antt =====
-- `DeviceTrustService` over the rows of the table `trusted_devices`. `uuid.UUID` and SHA-256 are
-- parameters: the first gives the canonical text of an id that it accepts. New ids and tokens are
-- arguments. Times are whole seconds.
use auth_n_z.Common.{
  ltb, leb, if◌then◌else◌, or_default, length, strip, ℕ, ◌+◌, ◌*◌, String, Bool, false, not, ◌&&◌,
  Option, none, some, List, [], ◌∷◌, ◌==◌, text_or,
}
use auth_n_z.Device.Label.{parse_device_label}

pub record Device : Type 0 where
  pub id : String
  pub user_id : String
  pub token_hash : String
  pub device_label : String
  pub user_agent : String
  pub ip_address : String
  pub created_at : ℕ
  pub expires_at : ℕ
  pub last_used_at : ℕ

-- the dictionaries that the service returns
pub record DeviceInfo : Type 0 where
  pub id : String
  pub user_id : String
  pub device_label : String
  pub ip_address : Option String
  pub created_at : ℕ
  pub expires_at : ℕ
  pub last_used_at : ℕ
  pub is_current_device : Bool

abbrev pub Devices : Type 0
Devices = List Device

-- the rows that a condition selects
unfoldable pub rows_where : (Device → Bool) → Devices → Devices
rows_where p [] = []
rows_where p (d ∷ ds) = let rest = rows_where p ds in if p d then d ∷ rest else rest

-- `scalars().first()`
unfoldable pub first_where : (Device → Bool) → Devices → Option Device
first_where p [] = none
first_where p (d ∷ ds) = if p d then some d else first_where p ds

-- `update(TrustedDevice).where(TrustedDevice.id == id)`
unfoldable pub touch : String → ℕ → Option String → Devices → Devices
touch id now ip [] = []
touch id now ip (d ∷ ds) =
    let rest = touch id now ip ds in
    if d.id == id
    then record d { last_used_at = now; ip_address = text_or ip d.ip_address } ∷ rest
    else d ∷ rest

-- `order_by(TrustedDevice.last_used_at.desc())`
unfoldable pub place : Device → Devices → Devices
place d [] = d ∷ []
place d (e ∷ es) = if leb e.last_used_at d.last_used_at then d ∷ e ∷ es else e ∷ place d es

unfoldable pub by_last_use : Devices → Devices
unfolding place
by_last_use [] = []
by_last_use (d ∷ ds) = place d (by_last_use ds)

-- `_hash_token`
unfoldable pub hash_token : (String → String) → String → String
hash_token sha256 token = sha256 (strip token)

-- `uuid.UUID(str(id).strip())`, after the test for an empty id
unfoldable pub parse_id : (String → Option String) → String → Option String
parse_id uuid id = if id == "" then none else uuid (strip id)

-- the row of a user's token
abbrev pub is_token_of : String → String → Device → Bool
is_token_of uid digest d = d.user_id == uid && d.token_hash == digest

-- the exact equality that binds a token to its browser
unfoldable pub same_agent : Option String → String → Bool
same_agent none stored = false
same_agent (some presented) stored =
    not (presented == "") && not (stored == "") && presented == stored

-- what `verify_trusted_device` does with the row that it found
unfoldable pub check_device :
    ℕ → Option String → Option String → Device → Devices → Option DeviceInfo × Devices
check_device now user_agent ip device ds =
    if ltb device.expires_at now
    then (none, rows_where (λ d. not (d.id == device.id)) ds)
    else if not (same_agent user_agent device.user_agent)
    then (none, ds)
    else (
      some (record {
        id = device.id;
        user_id = device.user_id;
        device_label = device.device_label;
        ip_address = some (text_or ip device.ip_address);
        created_at = device.created_at;
        expires_at = device.expires_at;
        last_used_at = now;
        is_current_device = false;
      }),
      touch device.id now ip ds,
    )

-- the loop of `list_trusted_devices` over the ordered rows
unfoldable pub unexpired : ℕ → Option String → Devices → List DeviceInfo
unexpired now current_hash [] = []
unexpired now current_hash (d ∷ ds) =
    let rest = unexpired now current_hash ds in
    if ltb d.expires_at now
    then rest
    else record {
      id = d.id;
      user_id = d.user_id;
      device_label = d.device_label;
      ip_address = some d.ip_address;
      created_at = d.created_at;
      expires_at = d.expires_at;
      last_used_at = d.last_used_at;
      is_current_device = elim current_hash [
        | none ↦ false
        | some h ↦ not (h == "") && d.token_hash == h
      ];
    }
      ∷ rest

module _ (uuid : String → Option String) (sha256 : String → String) where
  -- `create_trusted_device`; `none` is the ValueError of an invalid user id
  unfoldable pub create_trusted_device :
      (device_id raw_token : String) (now : ℕ) (user_id : String) (user_agent ip : Option String)
      → ℕ
      → Devices
      → Option (DeviceInfo × String) × Devices
  create_trusted_device device_id raw_token now user_id user_agent ip days_valid ds =
      elim (uuid (strip user_id)) [
        | none ↦ (none, ds)
        | some uid ↦
            let expires_at = now + days_valid * 86400 in
            let label = parse_device_label user_agent in
            (
              some (
                record {
                  id = device_id;
                  user_id = uid;
                  device_label = label;
                  ip_address = ip;
                  created_at = now;
                  expires_at = expires_at;
                  last_used_at = now;
                  is_current_device = false;
                },
                raw_token,
              ),
              record {
                id = device_id;
                user_id = uid;
                token_hash = hash_token sha256 raw_token;
                device_label = label;
                user_agent = or_default user_agent "";
                ip_address = or_default ip "";
                created_at = now;
                expires_at = expires_at;
                last_used_at = now;
              }
                  ∷ ds,
            )
      ]

  -- `verify_trusted_device`
  unfoldable pub verify_trusted_device :
      (now : ℕ) (user_id raw_token : String) (user_agent ip : Option String)
      → Devices
      → Option DeviceInfo × Devices
  verify_trusted_device now user_id raw_token user_agent ip ds =
      if strip raw_token == "" then (none, ds) else elim (parse_id uuid user_id) [
        | none ↦ (none, ds)
        | some uid ↦ elim (first_where (is_token_of uid (hash_token sha256 (strip raw_token))) ds) [
          | none ↦ (none, ds)
          | some device ↦ check_device now user_agent ip device ds
        ]
      ]

  -- `list_trusted_devices`
  unfoldable pub list_trusted_devices : ℕ → String → Option String → Devices → List DeviceInfo
  list_trusted_devices now user_id current_token ds =
      let current_hash : Option String = elim current_token [
        | none ↦ none
        | some t ↦ if t == "" then none else some (hash_token sha256 t)
      ] in
      elim (parse_id uuid user_id) [
        | none ↦ []
        | some uid ↦
            unexpired now current_hash (by_last_use (rows_where (λ d. d.user_id == uid) ds))
      ]

  -- `revoke_trusted_device`
  unfoldable pub revoke_trusted_device : String → String → Devices → Bool × Devices
  revoke_trusted_device user_id device_id ds = elim (parse_id uuid user_id) [
    | none ↦ (false, ds)
    | some uid ↦ elim (parse_id uuid device_id) [
      | none ↦ (false, ds)
      | some did ↦
          let chosen = λ (d : Device). d.id == did && d.user_id == uid in
          (ltb 0 (length (rows_where chosen ds)), rows_where (λ d. not (chosen d)) ds)
    ]
  ]

  -- `revoke_all_trusted_devices`
  unfoldable pub revoke_all_trusted_devices : String → Devices → ℕ × Devices
  revoke_all_trusted_devices user_id ds = elim (parse_id uuid user_id) [
    | none ↦ (0, ds)
    | some uid ↦
        let own = λ (d : Device). d.user_id == uid in
        (length (rows_where own ds), rows_where (λ d. not (own d)) ds)
  ]
