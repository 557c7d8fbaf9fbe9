-- ===== src/Permission.antt =====
-- Who may do what: the action catalog, the policy document, the permission engine and the roles.
pub mod Catalog
pub mod Policy
pub mod Engine
pub mod Grounds
pub mod Roles
pub mod Tests
