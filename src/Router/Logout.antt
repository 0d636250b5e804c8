-- ===== src/Router/Logout.antt =====
-- `logout` of api/v1/auth_router.py, for a user whose access token was accepted. The cookies of the
-- answer and the audit log are left out.
use auth_n_z.Common.{if◌then◌else◌, or_default, ℕ, String, Bool, Option, none, ◌==◌}
use auth_n_z.Common.Jwt.{Claims}
use auth_n_z.Session.Store.{delete_session, delete_all_user_sessions}
use auth_n_z.Device.Service.{revoke_all_trusted_devices}
use auth_n_z.Auth.Login.{Services}
use auth_n_z.Router.Refresh.{App, revoke_own}

-- the body of the request
pub record LogoutRequest : Type 0 where
  pub logout_all_devices : Bool
  pub session_id : Option String

module _ (V : Services) where
  -- the number of sessions that the answer names, and the state
  unfoldable pub logout : (now : ℕ) (user_id : String) → Claims → LogoutRequest → App V → ℕ × App V
  logout now user_id c req s =
      let s' = revoke_own V now c s in
      let (count, sessions) = delete_all_user_sessions V.S user_id none s'.sessions in
      if req.logout_all_devices
      then (
        count,
        record s' {
          sessions = sessions;
          devices = (revoke_all_trusted_devices V.uuid V.sha256 user_id s'.devices).1;
        },
      )
      else if or_default req.session_id "" == ""
      then (0, s')
      else (
        1,
        record s' { sessions = (delete_session V.S (or_default req.session_id "") s'.sessions).1 },
      )
