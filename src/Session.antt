-- ===== src/Session.antt =====
-- session_store.py: sessions in Redis with a fallback in memory.
pub mod Store
pub mod Memory
pub mod Index
pub mod Ended
pub mod Outage
mod Examples
