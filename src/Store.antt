-- ===== src/Store.antt =====
-- The tables of internal/model that a worker writes, and the operations of
-- internal/session/worker.go on them.
pub mod Tables
pub mod Sessions
pub mod Archived
pub mod Active
pub mod Persist
pub mod Records
pub mod Tokens
