-- ===== src/Token.antt =====
-- token_service.py: minting, verifying and revoking tokens. PyJWT, Redis and the random
-- identifiers of `uuid4` are parameters; times are whole seconds.
pub mod Claims
pub mod Service
pub mod Mint
pub mod Revocation
pub mod Family
pub mod Verify
mod Examples
