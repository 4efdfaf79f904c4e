-- ===== src/Claude.antt =====
-- internal/claude: the long-running process of the language model's command line.
pub mod Session
pub mod Collect
