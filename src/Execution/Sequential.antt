-- ===== src/Execution/Sequential.antt =====
-- `execute_hooks_sequential` of src/execution.rs. What one hook does (`execute_single_hook`: the
-- file filter, the cache, the language plugin and the child process) is a parameter that may
-- change the engine's state; output to the user and events change nothing here.
pub mod Tally
pub mod FailFast
use snp.Prelude.{
  ℕ, Bool, true, false, not, ◌&&◌, List, [], ◌∷◌, Option, none, some, String, if◌then◌else◌,
  is_empty, Result, ok, err,
}
use snp.Core.Stage.{Stage}
use snp.Core.Hook.{Hook}
use snp.Execution.HookResult
use snp.Execution.HookResult.{HookExecutionResult}
use snp.Execution.Outcome
use snp.Execution.Outcome.{ExecutionResult}

pub record FileChangeDetectorConfig : Type 0 where
  pub watch_filesystem : Bool
  pub cache_size : ℕ
  pub large_file_threshold : ℕ
  pub force_refresh : Bool
  pub hash_large_files : Bool

-- The fields of `ExecutionConfig` that a run reads.
pub record ExecutionConfig : Type 0 where
  pub stage : Stage
  pub files : List String
  pub fail_fast : Bool
  pub hook_timeout : ℕ
  pub max_parallel_hooks : ℕ
  pub working_directory : Option String
  pub incremental_config : Option FileChangeDetectorConfig

-- How a hook is executed, and how an error of it becomes a failed result.
pub record Runner (S Code Failure Fault : Type 0) : Type 0 where
  pub execute_single_hook :
      Hook → ExecutionConfig → S → S × Result Fault (HookExecutionResult Code Failure)
  pub minus_one : Code
  pub environment_setup_failed : Hook → Fault → Failure

module _ {S Code Failure Fault : Type 0} (runner : Runner S Code Failure Fault) where
  -- The result of a hook: an error of the engine is a failed hook.
  unfoldable pub settle :
      Hook → Result Fault (HookExecutionResult Code Failure) → HookExecutionResult Code Failure
  unfolding HookResult.failure HookResult.new
  settle hook (ok r) = r
  settle hook (err e) =
      HookResult.failure runner.minus_one 0 (runner.environment_setup_failed hook e)
        (HookResult.new hook.id)

  -- The part of the loop's body behind the two early `continue`s.
  unfoldable pub record_hook :
      Hook
      → HookExecutionResult Code Failure
      → ExecutionResult Code Failure
      → ExecutionResult Code Failure
  unfolding Outcome.add_skipped Outcome.add_result
  record_hook hook r t = if r.skipped then Outcome.add_skipped hook.id t else Outcome.add_result r t

  -- The body of the loop.
  unfoldable pub step :
      ExecutionConfig → Hook → S → ExecutionResult Code Failure → S × ExecutionResult Code Failure
  unfolding settle record_hook
  step config hook s t =
      if config.fail_fast && not t.success
      then (s, Outcome.add_skipped hook.id t)
      else if is_empty config.files && not hook.always_run
      then (s, Outcome.add_skipped hook.id t)
      else (let (s', r) = runner.execute_single_hook hook config s in
          (s', record_hook hook (settle hook r) t))

  unfoldable pub run_from :
      ExecutionConfig
      → List Hook
      → S
      → ExecutionResult Code Failure
      → S × ExecutionResult Code Failure
  run_from config [] s t = (s, t)
  run_from config (hook ∷ hooks) s t =
      let (s', t') = step config hook s t in run_from config hooks s' t'

  unfoldable pub execute_hooks_sequential :
      ExecutionConfig → List Hook → S → S × ExecutionResult Code Failure
  unfolding Outcome.new
  execute_hooks_sequential config hooks s = run_from config hooks s Outcome.new
