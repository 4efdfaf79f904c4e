-- ===== src/Feishu.antt =====
-- internal/feishu: the messages of the chat and what becomes of them.
pub mod Message
pub mod Receiver
pub mod Addressed
pub mod Sender
pub mod Reply
pub mod Marks
pub mod Outbound
