-- ===== src/Schedule.antt =====
-- internal/schedule: cron expressions and intents in messages, and the service that keeps the
-- table of schedules and the scheduler's jobs together.
pub mod Cron
pub mod Intent
pub mod Service
pub mod Plans
pub mod Jobs
pub mod Startup
pub mod Matching
pub mod Manage
pub mod Listed
pub mod Ownership
pub mod Runs
pub mod Outcome
