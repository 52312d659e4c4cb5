-- ===== src/Roles.antt =====
-- Roles and their assignment to users (src/roles/roles.service.ts, src/users/user-roles.service.ts).
pub mod Catalog
pub mod Assignments
pub mod Freshness
