-- ===== src/Router.antt =====
-- api/v1/auth_router.py: the requests that work on tokens, sessions and devices together.
pub mod Refresh
pub mod Logout
pub mod Granted
pub mod Later
pub mod Reuse
pub mod Race
pub mod Ended
mod Examples
