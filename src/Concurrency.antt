-- ===== src/Concurrency.antt =====
-- src/concurrency.rs: tasks, their dependency graph and the resource checks.
pub mod Graph
pub mod Tasks
pub mod Batch
