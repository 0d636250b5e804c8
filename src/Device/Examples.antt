-- ===== src/Device/Examples.antt =====
-- Tests of the trusted devices, and their theorems at concrete inputs: every text is an id, and a
-- token is its own digest.
use auth_n_z.Common.{
  is_some, lower, strip, ℕ, ◌≤◌, String, ◌≡◌, refl, ◌≢◌, ◌↔◌, true, Option, none, some, [], ◌∷◌,
  map, has_text,
}
use auth_n_z.Device.Label.{os_name, browser_name, parse_device_label}
use auth_n_z.Device.Service.{
  Device, DeviceInfo, Devices, rows_where, first_where, is_token_of, parse_id, hash_token,
  check_device, verify_trusted_device, revoke_all_trusted_devices, place, by_last_use, unexpired,
  list_trusted_devices,
}
use auth_n_z.Device.Trust.{verify_trusted_device_iff}
use auth_n_z.Device.Revoked.{revoke_all_trusted_devices-verify}

abbrev uuid : String → Option String
uuid = some

abbrev digest : String → String
digest t = t

edge :
    parse_device_label (some "Mozilla/5.0 (Windows NT 10.0) Chrome/120 Safari/537 Edg/120")
    ≡ "Microsoft Edge on Windows"
unfolding parse_device_label os_name browser_name lower has_text
edge = refl

-- every Linux name stands before that of Android only where "android" is absent
android :
    parse_device_label (some "Mozilla/5.0 (Linux; Android 14) Firefox/121")
    ≡ "Mozilla Firefox on Android"
unfolding parse_device_label os_name browser_name lower has_text
android = refl

abbrev laptop : Device
laptop = record {
  id = "d1";
  user_id = "ann";
  token_hash = "t1";
  device_label = "Mozilla Firefox on Linux";
  user_agent = "Firefox";
  ip_address = "::1";
  created_at = 100;
  expires_at = 1000;
  last_used_at = 100;
}

abbrev phone : Device
phone = record laptop { id = "d2"; token_hash = "t2"; last_used_at = 500 }

abbrev both : Devices
both = laptop ∷ phone ∷ []

latest_first :
    map (λ (i : DeviceInfo). i.id) (list_trusted_devices uuid digest 900 "ann" (some "t1") both)
    ≡ "d2" ∷ "d1" ∷ []
unfolding list_trusted_devices rows_where place by_last_use unexpired parse_id hash_token strip
latest_first = refl

-- an expired row is deleted when its token is shown
expired_deleted :
    (verify_trusted_device uuid digest 1001 "ann" "t1" (some "Firefox") none both).1 ≡ phone ∷ []
unfolding verify_trusted_device check_device rows_where first_where parse_id hash_token strip
expired_deleted = refl

verify_trusted_device_iff_example :
    (is_some (verify_trusted_device uuid digest 900 "ann" "t1" (some "Firefox") none both).0 ≡ true)
    ↔ ((strip "t1" ≢ "")
        × ((uid : String) × (device : Device) × (parse_id uuid "ann" ≡ some uid)
            × (first_where (is_token_of uid (hash_token digest (strip "t1"))) both ≡ some device)
            × (900 ≤ device.expires_at)
            × (some "Firefox" ≡ some device.user_agent)
            × (device.user_agent ≢ "")))
verify_trusted_device_iff_example =
    verify_trusted_device_iff uuid digest 900 "ann" "t1" (some "Firefox") none both

revoke_all_trusted_devices-verify_example :
    let left = (revoke_all_trusted_devices uuid digest "ann" both).1 in
    ((now : ℕ) (raw_token : String) (user_agent ip : Option String)
      → verify_trusted_device uuid digest now "ann" raw_token user_agent ip left ≡ (none, left))
    × ((other h : String)
        → other ≢ "ann"
        → first_where (is_token_of other h) left ≡ first_where (is_token_of other h) both)
unfolding parse_id strip
revoke_all_trusted_devices-verify_example =
    revoke_all_trusted_devices-verify uuid digest "ann" "ann" both refl
