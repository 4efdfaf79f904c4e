-- ===== src/Heartbeat.antt =====
-- The heartbeat: a loop for each app that runs a prompt file.
pub mod Service
pub mod Targets
pub mod Loops
pub mod Run
