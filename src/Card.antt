-- ===== src/Card.antt =====
-- internal/session/compact_stream.go: the card that shows a run's progress.
pub mod Render
pub mod Streamer
pub mod Calls
pub mod Bounds
pub mod Delivery
pub mod Pace
