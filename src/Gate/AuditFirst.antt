-- ===== src/Gate/AuditFirst.antt =====
-- Audit before dispatch: no call reaches a provider unless its authorization is in the committed
-- audit log by then, and the log only grows.
pub mod Steps
mod Noted
pub mod Granted
mod Verdicts
pub mod Requests
pub mod Approvals
