-- ===== src/Example.antt =====
-- The example backend (example/src): a NestJS service over books, authors, users and favorites.
pub mod Backend
pub mod Pages
pub mod Books
pub mod Authors
pub mod Accounts
pub mod Users
pub mod Guards
pub mod Server
pub mod Sending
pub mod Privileges
pub mod Secrets
pub mod Registration
