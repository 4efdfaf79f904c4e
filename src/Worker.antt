-- ===== src/Worker.antt =====
-- internal/session/worker.go: the worker of one channel.
pub mod Attachments
pub mod Strip
pub mod Title
