-- ===== src/Policy.antt =====
-- policy_engine.py, and rules.json and authnz.rego through what it loads from them.
pub mod Engine
pub mod Defaults
pub mod Roles
pub mod Permissions
pub mod Rules
pub mod Cache
pub mod Manager
pub mod Access
mod Examples
