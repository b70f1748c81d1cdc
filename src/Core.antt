-- ===== src/Core.antt =====
-- src/core.rs: stages, repositories and hooks.
pub mod Stage
pub mod Repository
pub mod Hook
mod Tests
pub mod Filter
