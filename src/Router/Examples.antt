-- ===== src/Router/Examples.antt =====
-- The requests at a concrete application: one user, Ann, and a JWT library
-- that decodes every text to the same claims.
use auth_n_z.Common.{
  if◌then◌else◌, lookup, remove, contains, add, ℕ, String, ◌≡◌, refl, ◌≢◌, true, false, Option,
  none, some, [], ◌∷◌, ◌==◌,
}
use auth_n_z.Common.Samples.{memory_redis}
use auth_n_z.Common.Jwt.{Claims, claims, text}
use auth_n_z.Identity.{User}
use auth_n_z.Token.Service.{
  is_token_revoked, is_family_revoked, listed, jti_of, revoke_token, mark_both, exp_of,
}
use auth_n_z.Session.Store.{
  Session, SessionRedis, Sessions, delete_all_user_sessions, on_redis, delete_listed, remove_all,
  all_but,
}
use auth_n_z.Session.Index.{IsIndexed}
use auth_n_z.Session.Ended.{HoldsNone}
use auth_n_z.Device.Service.{Device}
use auth_n_z.Auth.Login.{Services, UserRepo}
use auth_n_z.Router.Refresh.{
  rotated, rejected, Draw, Lifetimes, App, passed, reuse_detail, end_family, family_test, jti_test,
  claim_of, check_claims, check_decoded, check_refresh, user_of, revoke_own, rotate, rotate_checked,
  refresh_tokens,
}
use auth_n_z.Token.Claims.{create_access_token, create_refresh_token}
use auth_n_z.Router.Logout.{LogoutRequest}
use auth_n_z.Router.Granted.{is_rotated, shown, Shows, may_rotate, refresh_tokens-may_rotate}
use auth_n_z.Router.Later.{here, Later}
use auth_n_z.Router.Reuse.{refresh_tokens_once}
use auth_n_z.Router.Race.{refresh_tokens_race}

abbrev ann : User
ann = record {
  id = "u1";
  username = "ann";
  email = "ann@example.org";
  hashed_password = "secret";
  is_active = true;
  roles = "user" ∷ [];
  metadata = record {
    mfa_enabled = false;
    mfa_secret = "";
    backup_codes = [];
    clearance = none;
    department = none;
  };
}

abbrev no_sessions : SessionRedis
no_sessions = record {
  Db = Unit {0};
  hset = λ k v d. (none, d);
  hset_data = λ k v d. (none, d);
  hgetall = λ k d. (some none, d);
  expire = λ k t d. (some false, d);
  sadd = λ k v d. (some tt, d);
  srem = λ k v d. (some tt, d);
  smembers = λ k d. (some [], d);
  delete = λ ks d. (some 0, d);
}

abbrev users : UserRepo
users = record {
  Db = User;
  get_by_id = λ id u. if id == "u1" then some u else none;
  get_by_identifier = λ name u. if name == "ann" then some u else none;
  set_password = λ id hash u. record u { hashed_password = hash };
  set_metadata = λ id data' u. record u { metadata = data' };
}

abbrev refresh_claims : Claims
refresh_claims =
    ("sub", text "u1")
    ∷ ("type", text "refresh")
    ∷ ("jti", text "j1")
    ∷ ("family_id", text "f1")
    ∷ []

abbrev token : String
token = "r1"

abbrev services : Services
services = record {
  R = memory_redis;
  S = no_sessions;
  U = users;
  hasher = record { verify = λ p h. p == h; needs_rehash = λ h. false; hash = λ p. p };
  jwt = record {
    encode = λ c. "t1";
    decode = λ now t. claims refresh_claims;
    unverified = λ t. none;
  };
  json = record { dumps = λ c. ""; loads = λ t. none };
  uuid = some;
  sha256 = λ t. t;
  totp = λ now secret code window. none;
}

abbrev lifetimes : Lifetimes
lifetimes = record { access = 900; refresh = 604800 }

abbrev draw : Draw
draw = record { access_jti = "j2"; refresh_jti = "j3"; family_id = "f2" }

abbrev anns : Session
anns = record { user_id = "u1"; created_at = 90; fields = [] }

abbrev laptop : Device
laptop = record {
  id = "d1";
  user_id = "u1";
  token_hash = "h1";
  device_label = "Laptop";
  user_agent = "Firefox";
  ip_address = "10.0.0.1";
  created_at = 80;
  expires_at = 5000;
  last_used_at = 80;
}

-- Ann has one session and one trusted device
abbrev app : App services
app = record {
  tokens = record { redis = none; blocklist = []; revoked_families = [] };
  sessions = record {
    redis = none;
    in_memory = ("s1", anns) ∷ [];
    user_index = ("u1", "s1" ∷ []) ∷ [];
  };
  devices = laptop ∷ [];
}

abbrev no_session : Sessions no_sessions
no_session = record { redis = none; in_memory = []; user_index = [] }

-- after one exchange
abbrev exchanged : App services
exchanged = record app { tokens = record app.tokens { blocklist = "j1" ∷ [] } }

exchange :
    refresh_tokens services 100 lifetimes draw (some token) none ann app
    ≡ (rotated "t1" "t1" "u1", exchanged)
unfolding refresh_tokens check_refresh check_decoded check_claims family_test jti_test
    is_token_revoked is_family_revoked listed jti_of rotate_checked rotate user_of revoke_own
    revoke_token mark_both exp_of lookup contains add create_access_token create_refresh_token
exchange = refl

shown_r1 : Shows services 100 token refresh_claims
shown_r1 = (λ e. cc e, refl)

refresh_tokens-may_rotate_example :
    is_rotated (refresh_tokens services 100 lifetimes draw (some token) none ann app).0
    ≡ may_rotate services 100 (shown (some token) none) ann app.tokens
refresh_tokens-may_rotate_example =
    refresh_tokens-may_rotate services 100 lifetimes draw (some token) none ann app refl

j1 : claim_of "jti" refresh_claims ≢ ""
unfolding lookup
j1 = λ e. cc e

refresh_tokens_once_example :
    let (answer, s'') =
      refresh_tokens services 200 lifetimes draw none (some token) ann exchanged in
    (answer ≡ rejected reuse_detail)
    × (claim_of "sub" refresh_claims ≢ ""
        → IsIndexed no_sessions exchanged.sessions
        → HoldsNone no_sessions (claim_of "sub" refresh_claims) s''.sessions)
    × ((last : ℕ) (lifetimes' : Lifetimes) (draw'' : Draw) (body'' cookie'' : Option String)
          (c' : Claims) (users'' : User) (s3 : App services)
        → claim_of "family_id" refresh_claims ≢ ""
        → claim_of "family_id" c' ≡ claim_of "family_id" refresh_claims
        → Later services s'' s3
        → Shows services last (shown body'' cookie'') c'
        → is_rotated (refresh_tokens services last lifetimes' draw'' body'' cookie'' users'' s3).0
          ≡ false)
refresh_tokens_once_example =
    refresh_tokens_once services 100 200 lifetimes draw draw (some token) none none (some token)
      refresh_claims ann ann app exchanged "t1" "t1" "u1" refl j1 shown_r1 shown_r1 exchange

-- the reuse ends Ann's session, and a token of the family shown in the cookie is refused
abbrev ended : App services
ended = (refresh_tokens services 200 lifetimes draw none (some token) ann exchanged).1

no_session_left : ended.sessions.in_memory ≡ []
unfolding refresh_tokens check_refresh check_decoded check_claims family_test jti_test
    is_token_revoked is_family_revoked listed jti_of rotate_checked end_family
    delete_all_user_sessions on_redis delete_listed remove_all all_but remove lookup contains
no_session_left = refl

f1 : claim_of "family_id" refresh_claims ≢ ""
unfolding lookup
f1 = λ e. cc e

stolen_refused :
    is_rotated (refresh_tokens services 300 lifetimes draw none (some token) ann ended).0 ≡ false
stolen_refused =
    let (answer, gone, refused_later) =
      refresh_tokens_once services 100 200 lifetimes draw draw (some token) none none (some token)
        refresh_claims ann ann app exchanged "t1" "t1" "u1" refl j1 shown_r1 shown_r1 exchange in
    refused_later 300 lifetimes draw none (some token) refresh_claims ann ended f1 refl here
      (λ e. cc e, refl)

refresh_tokens_race_example :
    let (first, s1) = check_refresh services 100 token app in
    let (second, s2) = check_refresh services 101 token s1 in
    let (answer, s3) = rotate services 100 lifetimes draw refresh_claims ann s2 in
    (first ≡ passed refresh_claims)
    × (second ≡ passed refresh_claims)
    × (is_rotated answer ≡ true)
    × (is_rotated (rotate services 101 lifetimes draw refresh_claims ann s3).0 ≡ true)
unfolding user_of lookup contains jti_of
refresh_tokens_race_example =
    refresh_tokens_race services 100 101 lifetimes draw draw token refresh_claims ann app refl
      shown_r1 shown_r1 refl

-- Ann's access token has the identifier "j1" as well
abbrev everywhere : LogoutRequest
everywhere = record { logout_all_devices = true; session_id = none }
