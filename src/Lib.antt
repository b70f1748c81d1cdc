-- ===== src/Lib.antt =====
-- snp, a pre-commit framework in Rust: a verification of its core.
--
-- The program reads hooks from a configuration, sorts them by their dependencies, runs them and
-- tallies their results; errors on the way go to a recovery engine, and expensive objects come
-- from resource pools. Each part has a module here.
--
-- Core: src/core.rs and the hook of src/config.rs. Core/Stage is `Stage` (`from_str`, `as_str`,
--   `all` as all_stages), Core/Repository `Repository`, Core/Hook `Hook` (`new`, `validate`,
--   `runs_for_stage`, `command`, `from_config`), Core/Filter the `FileFilter` of src/filesystem.rs with
--   `file_filter` and `filtered_files` of src/core.rs. Whether a path exists and whether a text compiles
--   as a regular expression are parameters.
-- Concurrency: src/concurrency.rs. Concurrency/Graph is `TaskDependencyGraph`: `add_task`,
--   `add_dependency`, `detect_cycles` with `dfs_cycle_check`, and `resolve_execution_order`. Its
--   `HashMap`s are association lists in their iteration order (Prelude/Map). The queue's loop runs
--   on fuel, one unit for each task, since it takes each task once; the depth of the search on fuel
--   too, one unit for each name in the graph and one more, since it descends only into names that
--   it has not marked. An `unwrap` on `None` and a `usize` below zero are the error
--   `panicked`, and fuel that does not suffice the error `out_of_fuel`.
--   Concurrency/Tasks is the task registry of `ConcurrencyExecutor`: `execute_task`,
--   `acquire_resources`, `cancel_task`, `cancel_all_tasks`. Floating-point cores and percents are
--   written in hundredths.
-- Execution: src/execution.rs. Execution/HookResult and Execution/Outcome are the results,
--   Execution/Sequential is `execute_hooks_sequential`, Execution/Order `resolve_hook_dependencies`
--   and `execute_hooks`, which calls Concurrency/Graph. These take what one hook does and the
--   parallel run as parameters, which Execution/Engine and Execution/Parallel supply.
--   Execution/Engine is `HookExecutionEngine` with a world outside of it; language plugins, hashes, the
--   file filter (as Core/Filter has it) and the file system are fields of a record `Host`. Its children: ResultCache
--   (`check_cache`, `store_in_cache`, `generate_hook_hash`), Environments
--   (`get_or_create_environment`), Locks (`acquire_file_locks_sync`) and Single
--   (`execute_single_hook`, `execute_hook_with_environment`). Execution/Parallel is
--   `analyze_hook_environments`, `setup_environments_for_groups` and `execute_hooks_parallel`, which
--   gives its tasks to Concurrency/Batch, `execute_batch`. There the interleaving of the tasks is a
--   parameter that answers each task in its place with a value that the task gave in some state.
--   Execution/Arena is `execute_hooks_arena_optimized`. Events and output change nothing in the model.
-- Recovery: src/recovery.rs. Recovery/Errors, Recovery/History, Recovery/Guards (circuit breakers
--   and rate limiters), Recovery/Retry (the loop of `execute_retry_strategy`, which recurses on the
--   number of calls left), Recovery/Engine (`handle_error` and what it calls). The clock is an
--   argument, the operation a function of the number of the call, and times are milliseconds.
-- Pool: src/resource_pool.rs. `ResourcePool` one call at a time: `acquire`, `return_resource`,
--   `maintain_pool`, `stats`, `shutdown` as shut_down. The resources' own methods, the clock and the
--   grant of the semaphore are arguments. Pool/Steps is the life of a pool and its guards as a step
--   relation.
--   Pool/Permits adds the semaphore of the tokio crate, a record of operations with laws, for calls of
--   which no two are in progress at the same time.
-- Chaining: src/hook_chaining.rs. Chaining/Resolver is `DependencyResolver` (`build_graph`,
--   `calculate_execution_levels`, `validate_dependencies`, `detect_cycles`), whose components come from
--   the petgraph library, a parameter. The loop over the levels runs on fuel, one unit more than there
--   are hooks, since each round places a hook. Chaining/Planner is `ExecutionPlanner`, whose search of
--   the critical path runs no deeper than there are hooks and one more; what does not end there is the
--   error `out_of_fuel`. Chaining/Conditions is `ConditionEvaluator` with what it asks of files, of
--   the environment, of the regex library and of registered evaluators in a record of functions, whose
--   answers stay the same during a chain, since the chain runs no command.
--   Chaining/Single is `execute_single_hook_with_behavior`, which simulates its hook by the text of
--   the command (Chaining/Words), and Chaining/Executor `execute_chain`, phase by phase. A panic is
--   the error `panic`; measured durations and timestamps are left out.
-- Cache: src/cache.rs. Cache/Stores states what is used of the crates dashmap and lru as records of
--   operations with laws; Cache/Tiers is `MultiTierCache`, with a record of functions for each crate.
--   Cache/Calls is a sequence of calls, each some time after the one before it. The cutoff of
--   `evict_older_than` is compared with no subtraction, as one that does not overflow.
-- Negative: src/negative_cache.rs. `NegativeCache` over the Bloom filter of the bloom crate, a record
--   of operations with laws; Negative/Calls is a sequence of calls.
-- Scheduler: src/lock_free_scheduler.rs. `LockFreeTaskScheduler` over the queues of the crate
--   crossbeam, a record of operations with laws; Scheduler/Pending is the calls as a step relation.
--   The modulo by no workers, a panic, is `none`.
-- LockFree: src/lock_free_cache.rs. `LockFreeCache` over the map of the crate dashmap; LockFree/Calls
--   is a sequence of calls.
-- Prelude: Boolean tests, lists, association lists, results and code that changes a state.
--
-- Machine integers are natural numbers: every counter here grows by one for a call, and where the
-- source subtracts with saturation the subtraction stops at zero. The atomic counters of Scheduler and
-- LockFree wrap at 2^64.
--
-- Not modelled: the run with resource pools, the scheduler on work-stealing deques, file
-- locks between processes, storage, git, the language plugins, events, and the command line.
pub mod Prelude
pub mod Core
pub mod Concurrency
pub mod Execution
pub mod Recovery
pub mod Pool
pub mod Cache
pub mod Negative
pub mod Scheduler
pub mod LockFree
pub mod Chaining
