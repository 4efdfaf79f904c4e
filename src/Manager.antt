-- ===== src/Manager.antt =====
-- internal/session/manager.go: the manager that routes messages to the workers of channels.
pub mod Dedup
pub mod Dispatch
pub mod Routing
pub mod Order
pub mod Stop
pub mod Lifecycle
