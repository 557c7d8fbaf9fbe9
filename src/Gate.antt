-- ===== src/Gate.antt =====
-- The execution gate: the one way by which an action reaches a provider.
pub mod Records
pub mod World
pub mod Audit
pub mod Confirm
pub mod Dual
pub mod Calls
pub mod Dispatch
pub mod Service
pub mod Request
pub mod Approve
pub mod Deny
pub mod AuditFirst
pub mod Tests
