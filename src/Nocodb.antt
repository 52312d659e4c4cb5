-- ===== src/Nocodb.antt =====
-- NocoDBService (src/nocodb/nocodb.service.ts). A `catch` that logs and throws the same error again
-- changes nothing and is left out, as are log lines and the spans of `trace`, which runs its
-- function and passes on what it returns or throws.
pub mod Setup
pub mod Requests
pub mod Meta
pub mod Records
pub mod Limiter
pub mod Reading
pub mod Conflicts
pub mod Paging
pub mod Batches
