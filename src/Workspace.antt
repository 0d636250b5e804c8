-- ===== src/Workspace.antt =====
-- workspace_repository.py: workspaces, their members, and invitations.
pub mod Tables
pub mod Slug
pub mod Workspaces
pub mod Members
pub mod FreeSlug
pub mod Unique
pub mod Sound
pub mod Steps
pub mod Invitations
pub mod Roles
mod Examples
