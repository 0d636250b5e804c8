-- ===== src/WebAuthn.antt =====
-- webauthn_service.py: passkeys.
pub mod Service
pub mod Verify
pub mod Challenges
pub mod Counter
mod Examples
