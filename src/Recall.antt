-- ===== src/Recall.antt =====
-- The recall of what was said before: searches, summaries and memories.
pub mod Matches
pub mod Fused
pub mod Best
pub mod Limits
pub mod Complete
pub mod Format
pub mod Grouped
pub mod Query
pub mod Search
pub mod Retrieve
pub mod Own
pub mod Recalled
pub mod Answered
pub mod Balanced
pub mod Phrases
pub mod Sanitized
pub mod Memory
pub mod MemoryFiles
pub mod Synced
pub mod SyncRows
pub mod Relevant
pub mod Summary
pub mod AppId
