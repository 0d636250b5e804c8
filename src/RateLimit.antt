-- ===== src/RateLimit.antt =====
-- `check_rate_limit` of api/dependencies.py.
pub mod Window
pub mod Bound
mod Examples
