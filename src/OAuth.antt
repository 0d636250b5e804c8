-- ===== src/OAuth.antt =====
-- The pending states of oauth_provider.py.
pub mod State
pub mod Once
mod Examples
