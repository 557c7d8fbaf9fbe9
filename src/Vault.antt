-- ===== src/Vault.antt =====
-- The credential vault: references to secrets.
pub mod Part
pub mod Reference
pub mod Round
pub mod Service
mod Tests
