-- ===== src/Samples.antt =====
-- Sample runs of the components, and the theorems at concrete inputs.
mod Card
mod Manager
mod Store
mod Schedule
mod Worker
mod Turn
mod Claude
mod Feishu
mod Recall
mod Heartbeat
mod Cleanup
