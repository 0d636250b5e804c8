-- ===== src/Password.antt =====
-- password_hasher.py: Argon2id and bcrypt hashes of passwords.
pub mod Hash
pub mod Verify
mod Examples
