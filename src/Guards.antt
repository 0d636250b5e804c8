-- ===== src/Guards.antt =====
-- guards.py: the guards that an application puts before its requests.
pub mod Require
pub mod SignedIn
pub mod Scope
mod Examples
