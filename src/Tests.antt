-- ===== src/Tests.antt =====
-- Runs of the definitions on concrete inputs.
mod Fixtures
mod Recorder
mod Pure
mod Services
mod Accounts
mod Incoming
mod Writes
mod Paging
mod Loading
mod Shop
mod Web
