-- ===== src/Guards/Require.antt =====
-- `require_auth`, `require_role` and `require_permission` of guards.py, as functions of the request.
-- The headers that an error carries are left out.
use auth_n_z.Common.{
  if◌then◌else◌, or_default, strip_quotes, lower, strip, drop, Dict, lookup, ℕ, String, Bool, not,
  Option, none, some, [], ◌==◌, starts_with, text_append,
}
use auth_n_z.Common.Jwt.{Claims}
use auth_n_z.Identity.{User}
use auth_n_z.Token.Claims.{text_claim}
use auth_n_z.Token.Service.{Tokens}
use auth_n_z.Auth.Login.{Services}
use auth_n_z.Auth.Context.{Context, failed, of_token, of_session, authenticate_token}
use auth_n_z.Permission.Evaluator.{Evaluator, has_role, has_permission}

-- what the guards read of a request
pub record Request : Type 0 where
  -- the credentials that the bearer scheme finds
  pub credentials : Option String
  pub authorization : Option String
  pub access_cookie : Option String
  pub path_params : Dict String
  pub query_params : Dict String
  pub workspace_header : Option String

pub record CurrentUser : Type 0 where
  pub user : User
  pub workspace_id : Option String
  pub claims : Claims

-- what a guard gives: a value, `None`, or an `HTTPException`
pub data Guarded : Type 0 where
  granted : CurrentUser → Guarded
  nobody : Guarded
  refused : (status : ℕ) (detail : String) → Guarded

-- `a or b`
unfoldable pub or_else : Option String → Option String → Option String
or_else a b = if or_default a "" == "" then b else a

-- the token after "Bearer " in the header
unfoldable pub header_token : String → String
header_token header = if starts_with (lower header) "bearer " then strip (drop 7 header) else ""

-- the credentials, or else the header, or else the cookie
unfoldable pub token_of : Request → String
token_of req =
    let own = strip (or_default req.credentials "") in
    let header = header_token (or_default req.authorization "") in
    if not (own == "")
    then own
    else if not (header == "")
    then header
    else strip_quotes (or_default req.access_cookie "")

-- `safe_meta`
unfoldable pub without_secrets : User → User
without_secrets u = record u { metadata = record u.metadata { mfa_secret = ""; backup_codes = [] } }

-- an error, or no user where the guard raises none
unfoldable pub refuse : (auto_error : Bool) (detail : String) → Guarded
refuse auto_error detail = if auto_error then refused 401 detail else nobody

abbrev pub required_detail : String
required_detail = "Authentication credentials required (access_token cookie or Bearer token)."

-- the order in which a guard looks for a workspace
unfoldable pub effective_scope : (scope_param : String) → Request → CurrentUser → Option String
effective_scope scope_param req cu =
    or_else (lookup scope_param req.path_params)
      (or_else (lookup scope_param req.query_params) (or_else req.workspace_header cu.workspace_id))

-- the guards after `require_auth`
unfoldable pub require_role :
    Evaluator
    → (required_role : String) (scope : Option String) (scope_param : String) → Request
    → Guarded
    → Guarded
require_role e required_role scope scope_param req (granted cu) =
    let effective = or_else scope (effective_scope scope_param req cu) in
    if has_role e cu.user.id required_role effective
    then granted cu
    else refused 403
        (text_append "Access denied: '" (text_append required_role "' role or higher required."))
require_role e required_role scope scope_param req nobody = nobody
require_role e required_role scope scope_param req (refused status detail) = refused status detail

unfoldable pub require_permission :
    Evaluator → (permission scope_param : String) → Request → Guarded → Guarded
require_permission e permission scope_param req (granted cu) =
    if has_permission e cu.user.id permission (effective_scope scope_param req cu)
    then granted cu
    else refused 403
        (text_append "Access denied: '" (text_append permission "' permission required."))
require_permission e permission scope_param req nobody = nobody
require_permission e permission scope_param req (refused status detail) = refused status detail

module _ (V : Services) where
  -- the user's own record, once the token is accepted
  unfoldable pub current_user : (auto_error : Bool) → String → Claims → V.U.Db → Guarded
  current_user auto_error user_id claims users = elim (V.U.get_by_id user_id users) [
    | none ↦ refuse auto_error "User account is inactive or not found."
    | some u ↦
        if not u.is_active
        then refuse auto_error "User account is inactive or not found."
        else granted (record {
          user = without_secrets u;
          workspace_id = text_claim "workspace_id" claims;
          claims = claims;
        })
  ]

  -- `authenticate_token` never gives the context of a session
  unfoldable pub guard_context : (auto_error : Bool) → Context → V.U.Db → Guarded
  guard_context auto_error (failed reason) users =
      refuse auto_error (text_append "Invalid or expired token: " reason)
  guard_context auto_error (of_token user_id username roles claims) users =
      current_user auto_error user_id claims users
  guard_context auto_error (of_session user_id username at fields) users =
      refuse auto_error "Invalid or expired token: "

  -- `require_auth`
  unfoldable pub require_auth :
      (auto_error : Bool) (now : ℕ) → Request → V.U.Db → Tokens V.R → Guarded × Tokens V.R
  require_auth auto_error now req users s =
      let (context, s') = authenticate_token V now (token_of req) users s in
      if token_of req == ""
      then (refuse auto_error required_detail, s)
      else (guard_context auto_error context users, s')
