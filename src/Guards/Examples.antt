-- ===== src/Guards/Examples.antt =====
-- The guards at a concrete request: Ann, who has no role but the one in her own workspace "w1".
use auth_n_z.Common.{
  if◌then◌else◌, lower, strip, drop, lookup, contains, add, String, ◌≡◌, refl, true, false, ◌&&◌,
  none, some, [], ◌∷◌, ◌==◌,
}
use auth_n_z.Common.Samples.{memory_redis}
use auth_n_z.Common.Jwt.{Claims, claims, text}
use auth_n_z.Identity.{User, Directory}
use auth_n_z.Token.Service.{Tokens, decode_and_verify}
use auth_n_z.Session.Store.{SessionRedis}
use auth_n_z.Auth.Login.{Services, UserRepo}
use auth_n_z.Auth.Context.{clean_token}
use auth_n_z.Auth.Accepted.{speaks_for}
use auth_n_z.Permission.Roles.{
  normalize_role, normalize_all, set_of, walk, offer, universe, expand_roles,
}
use auth_n_z.Permission.Complete.{Has, expand_roles_iff}
use auth_n_z.Permission.Evaluator.{Evaluator, hierarchy}
use auth_n_z.Guards.Require.{Request, CurrentUser, granted, nobody, require_auth, require_role}
use auth_n_z.Guards.SignedIn.{in_header, Brings, is_granted, require_auth-speaks_for}
use auth_n_z.Guards.Scope.{require_role_header}

abbrev ann : User
ann = record {
  id = "u1";
  username = "ann";
  email = "ann@example.org";
  hashed_password = "secret";
  is_active = true;
  roles = [];
  metadata = record {
    mfa_enabled = false;
    mfa_secret = "";
    backup_codes = [];
    clearance = none;
    department = none;
  };
}

abbrev no_sessions : SessionRedis
no_sessions = record {
  Db = Unit {0};
  hset = λ k v d. (none, d);
  hset_data = λ k v d. (none, d);
  hgetall = λ k d. (some none, d);
  expire = λ k t d. (some false, d);
  sadd = λ k v d. (some tt, d);
  srem = λ k v d. (some tt, d);
  smembers = λ k d. (some [], d);
  delete = λ ks d. (some 0, d);
}

abbrev users : UserRepo
users = record {
  Db = User;
  get_by_id = λ id u. if id == "u1" then some u else none;
  get_by_identifier = λ name u. if name == "ann" then some u else none;
  set_password = λ id hash u. record u { hashed_password = hash };
  set_metadata = λ id data' u. record u { metadata = data' };
}

abbrev access_claims : Claims
access_claims = ("sub", text "u1") ∷ ("type", text "access") ∷ ("jti", text "j1") ∷ []

abbrev services : Services
services = record {
  R = memory_redis;
  S = no_sessions;
  U = users;
  hasher = record { verify = λ p h. p == h; needs_rehash = λ h. false; hash = λ p. p };
  jwt = record {
    encode = λ c. "t1";
    decode = λ now t. claims access_claims;
    unverified = λ t. none;
  };
  json = record { dumps = λ c. ""; loads = λ t. none };
  uuid = some;
  sha256 = λ t. t;
  totp = λ now secret code window. none;
}

abbrev quiet : Tokens memory_redis
quiet = record { redis = none; blocklist = []; revoked_families = [] }

-- the request names a workspace in its header only
abbrev request : Request
request = record {
  credentials = some "t1";
  authorization = none;
  access_cookie = none;
  path_params = [];
  query_params = [];
  workspace_header = some "w1";
}

-- without credentials the token is that of the header
in_bearer_header :
    Brings (record request { credentials = none; authorization = some "Bearer t1" }) "t1"
unfolding strip lower drop
in_bearer_header = in_header refl refl refl (λ e. cc e)

require_auth-speaks_for_example :
    let (answer, s'') = require_auth services true 100 request ann quiet in
    ((token : String)
      → Brings request token
      → is_granted answer
        ≡ speaks_for services
            (decode_and_verify memory_redis services.jwt 100 (clean_token token) quiet).0
            ann)
    × (((token : String) → ¬ Brings request token) → is_granted answer ≡ false)
    × (true ≡ false → is_granted answer ≡ false → answer ≡ nobody)
    × ((cu : CurrentUser)
        → answer ≡ granted cu
        → (cu.user.metadata.mfa_secret ≡ "")
          × (cu.user.metadata.backup_codes ≡ [])
          × (cu.user.is_active ≡ true))
require_auth-speaks_for_example = require_auth-speaks_for services true 100 request ann quiet

abbrev directory : Directory
directory = record {
  get_by_id = λ id. if id == "u1" then some ann else none;
  get_by_identifier = λ id. none;
  get_member = λ ws id email.
      if ws == "w1" && id == "u1"
      then some (record { role = "admin"; status = "active" })
      else none;
  resolve_ws_id = λ ws. some ws;
}

abbrev evaluator : Evaluator
evaluator = record {
  directory = directory;
  engine = record { role_hierarchy = []; role_permissions = []; policy_hash = "" };
  custom_role_permissions = none;
  custom_role_hierarchy = none;
}

abbrev current : CurrentUser
current = record { user = ann; workspace_id = none; claims = access_claims }

abbrev own_workspace : String
own_workspace = "w1"

admin_passes : Has (hierarchy evaluator) (normalize_role "admin" ∷ []) (normalize_role "admin")
unfolding expand_roles walk offer normalize_all normalize_role set_of universe lower strip lookup
    contains add
admin_passes = (expand_roles_iff (hierarchy evaluator) ("admin" ∷ []) "admin").0 refl

require_role_header_example :
    require_role evaluator "admin" none "workspace_id" request (granted current) ≡ granted current
unfolding lookup
require_role_header_example =
    require_role_header evaluator "admin" "workspace_id" request current own_workspace "admin" ann
      refl refl refl (λ e. cc e) refl refl refl admin_passes
