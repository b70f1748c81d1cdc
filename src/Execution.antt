-- ===== src/Execution.antt =====
-- src/execution.rs: the results of hooks, their order, and the sequential run of them.
pub mod HookResult
pub mod Outcome
pub mod Sequential
pub mod Order
pub mod Engine
pub mod Parallel
pub mod Arena
