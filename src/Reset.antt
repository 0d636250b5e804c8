-- ===== src/Reset.antt =====
-- user_repository.py: the tokens that reset a password.
pub mod Tokens
pub mod Single
pub mod Latest
pub mod Changed
mod Examples
