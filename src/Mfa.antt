-- ===== src/Mfa.antt =====
-- mfa_provider.py: one-time codes and backup codes.
pub mod Provider
pub mod BackupCodes
mod Examples
