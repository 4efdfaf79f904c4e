-- ===== src/Turn.antt =====
-- internal/session/worker.go: one turn of a worker, from a message to its reply.
pub mod Chat
pub mod Commands
pub mod Prompt
pub mod Execution
pub mod Process
pub mod Single
pub mod Kept
pub mod Progress
pub mod Answers
pub mod Bracket
pub mod SecondTry
pub mod Recovery
