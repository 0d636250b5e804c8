-- ===== src/Auth.antt =====
-- authenticator.py: logins, lockout after failed ones, second-factor challenges, and the context of
-- a bearer token or a session.
pub mod State
pub mod Lockout
pub mod Locked
pub mod Challenges
pub mod Login
pub mod Complete
pub mod Context
pub mod Accepted
pub mod SecondFactor
mod Examples
