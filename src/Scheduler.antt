-- ===== src/Scheduler.antt =====
-- gateway/src/scheduler: dispatch and the periodic sweep; and the settings that they and the routes
-- read.
pub mod Config
pub mod Claim
pub mod Reaper
pub mod Waiters
