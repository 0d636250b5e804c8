-- ===== src/Permission.antt =====
-- permission_evaluator.py: the roles of a user, global and in a workspace, and what they permit.
pub mod Roles
pub mod Closure
pub mod Complete
pub mod Evaluator
pub mod Grants
pub mod Decisions
pub mod RoleCheck
pub mod Accessible
mod Examples
