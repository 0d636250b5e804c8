-- ===== src/Device.antt =====
-- device_trust_service.py: the devices that a user has marked as trusted.
pub mod Label
pub mod Service
pub mod Trust
pub mod Revoked
mod Examples
