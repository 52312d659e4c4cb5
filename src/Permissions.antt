-- ===== src/Permissions.antt =====
-- Permissions (src/permissions, src/data/table-permissions.guard.ts).
pub mod Cache
pub mod Service
pub mod Scope
pub mod Guards
pub mod Management
