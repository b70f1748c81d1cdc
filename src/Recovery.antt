-- ===== src/Recovery.antt =====
-- src/recovery.rs: recovery from errors. Times and durations are in milliseconds.
pub mod Errors
pub mod History
pub mod Guards
pub mod Retry
pub mod Engine
mod Tests
