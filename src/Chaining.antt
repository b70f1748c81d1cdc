-- ===== src/Chaining.antt =====
-- Chains of hooks, src/hook_chaining.rs: the hooks of a chain with their dependencies, conditions
-- and failure behaviours. Durations are in milliseconds.
pub mod Resolver
pub mod Conditions
pub mod Words
pub mod Single
pub mod Planner
pub mod Executor
mod Tests
use snp.Prelude.{ℕ, List, [], Option, none, String}
use snp.Core.Hook.{Hook}

pub data ExecutionStrategy : Type 0 where
  sequential max_parallel resource_optimized time_optimized : ExecutionStrategy

pub data FailureStrategy : Type 0 where
  fail_fast continue_independent best_effort critical : FailureStrategy

pub data FailureBehavior : Type 0 where
  critical independent continue_on_failure optional : FailureBehavior
  retry_on_failure : (max_retries delay : ℕ) → FailureBehavior

pub data ExecutionCondition : Type 0 where
  file_exists : (path : String) → ExecutionCondition
  file_modified : (path : String) (since : ℕ) → ExecutionCondition
  environment_variable : (name : String) (value : Option String) → ExecutionCondition
  previous_hook_success : (hook_id : String) → ExecutionCondition
  previous_hook_output : (hook_id pattern : String) → ExecutionCondition
  git_branch : (pattern : String) → ExecutionCondition
  git_has_changes : (paths : Option (List String)) → ExecutionCondition
  custom : (evaluator : String) (params : List (String × String)) → ExecutionCondition

pub record ChainedHook : Type 0 where
  pub hook : Hook
  pub dependencies : List String
  pub conditions : List ExecutionCondition
  pub failure_behavior : FailureBehavior
  pub priority : ℕ
  pub timeout_override : Option ℕ

pub record HookChain : Type 0 where
  pub hooks : List ChainedHook
  pub execution_strategy : ExecutionStrategy
  pub failure_strategy : FailureStrategy
  pub max_parallel_chains : ℕ
  pub timeout : Option ℕ

unfoldable pub default : HookChain
default = record {
  hooks = [];
  execution_strategy = sequential;
  failure_strategy = fail_fast;
  max_parallel_chains = 1;
  timeout = none;
}

unfoldable pub new : Hook → ChainedHook
new hook = record {
  hook = hook;
  dependencies = [];
  conditions = [];
  failure_behavior = FailureBehavior.critical;
  priority = 50;
  timeout_override = none;
}

unfoldable pub with_dependencies : List String → ChainedHook → ChainedHook
with_dependencies dependencies h = record h { dependencies = dependencies }

unfoldable pub with_failure_behavior : FailureBehavior → ChainedHook → ChainedHook
with_failure_behavior behavior h = record h { failure_behavior = behavior }

unfoldable pub with_conditions : List ExecutionCondition → ChainedHook → ChainedHook
with_conditions conditions h = record h { conditions = conditions }

unfoldable pub with_timeout_override : Option ℕ → ChainedHook → ChainedHook
with_timeout_override timeout h = record h { timeout_override = timeout }
