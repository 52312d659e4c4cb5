-- ===== src/Frontend.antt =====
-- The example frontend (example/frontend/src): its stores and its router. What the program does
-- between two awaits of a store's action is one event.
pub mod Session
pub mod Shelf
pub mod Router
