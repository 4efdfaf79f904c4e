-- ===== src/Cleanup.antt =====
-- The cleanup of attachments, internal/cleanup.
pub mod Service
pub mod Selected
pub mod Sessions
pub mod Removed
pub mod Counted
