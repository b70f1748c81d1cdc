-- ===== src/Execution/Arena.antt =====
-- `execute_hooks_arena_optimized` of src/execution.rs. The arena itself holds copies of the command and
-- of the files and changes nothing; the files of the run are those of its configuration.
pub mod Ran
pub mod Reported
mod Tests
use snp.Prelude.{
  ℕ, ◌+◌, Bool, true, false, not, ◌&&◌, if◌then◌else◌, ◌==◌, nat_eq, List, [], ◌∷◌, ◌++◌, Option,
  none, some, String, length, Result, ok, err,
}
use snp.Prelude.Stateful.{Stateful, ◌>>=◌, and_then, return, lift}
use snp.Core.Hook.{Hook, unwrap_or, runs_for_stage}
use snp.Execution.HookResult
use snp.Execution.HookResult.{HookExecutionResult}
use snp.Execution.Outcome.{ExecutionResult}
use snp.Execution.Sequential.{ExecutionConfig}
use snp.Execution.Engine.{Host, Engine, SnpError, elapsed}
use snp.Execution.Engine.Single.{execute_single_hook}

-- The variables of the loop.
pub record ArenaRun (Code Failure : Type 0) : Type 0 where
  pub results : List (HookExecutionResult Code Failure)
  pub success_count : ℕ
  pub failure_count : ℕ

module _ {Code Failure : Type 0} where
  unfoldable pub push_result :
      HookExecutionResult Code Failure → ArenaRun Code Failure → ArenaRun Code Failure
  push_result r run = record run { results = run.results ++ r ∷ [] }

  -- The statistics of a hook that was executed.
  unfoldable pub count_result :
      HookExecutionResult Code Failure → ArenaRun Code Failure → ArenaRun Code Failure
  count_result r run =
      if r.success
      then record run { success_count = run.success_count + 1 }
      else record run { failure_count = run.failure_count + 1 }

  -- The loop that separates the results into passed, failed and skipped.
  unfoldable pub passed_results :
      List (HookExecutionResult Code Failure) → List (HookExecutionResult Code Failure)
  passed_results [] = []
  passed_results (r ∷ rs) = let rest = passed_results rs in if r.success then r ∷ rest else rest

  unfoldable pub skipped_hooks : List (HookExecutionResult Code Failure) → List String
  skipped_hooks [] = []
  skipped_hooks (r ∷ rs) =
      let rest = skipped_hooks rs in
      if r.success then rest else if r.duration == 0 then r.hook_id ∷ rest else rest

  unfoldable pub failed_results :
      List (HookExecutionResult Code Failure) → List (HookExecutionResult Code Failure)
  failed_results [] = []
  failed_results (r ∷ rs) =
      let rest = failed_results rs in
      if r.success then rest else if r.duration == 0 then rest else r ∷ rest

  unfoldable pub summarize :
      (hooks duration : ℕ) → ArenaRun Code Failure → ExecutionResult Code Failure
  unfolding passed_results failed_results skipped_hooks
  summarize hooks duration run = record {
    success = run.failure_count == 0;
    hooks_executed = hooks;
    hooks_passed = passed_results run.results;
    hooks_failed = failed_results run.results;
    hooks_skipped = skipped_hooks run.results;
    total_duration = duration;
    files_modified = [];
  }

module _ {S Env Dependency Code Failure Fault : Type 0}
    (host : Host S Env Dependency Code Failure Fault) where
  -- The execution of a hook on its files.
  unfoldable pub execute_filtered :
      Hook
      → ExecutionConfig
      → Stateful (Engine S Env Code Failure) (SnpError Fault) (HookExecutionResult Code Failure)
  unfolding execute_single_hook
  execute_filtered hook config = do
    filtered ← lift (host.filtered_files hook config.files)
    execute_single_hook host hook
        (record config { files = if hook.always_run then config.files else filtered })

  unfoldable pub run_arena :
      ExecutionConfig
      → List Hook
      → ArenaRun Code Failure
      → Stateful (Engine S Env Code Failure) (SnpError Fault) (ArenaRun Code Failure)
  unfolding execute_filtered push_result count_result runs_for_stage HookResult.new
  run_arena config [] run engine = (engine, ok run)
  run_arena config (hook ∷ hooks) run engine =
      let passed_over = run_arena config hooks (push_result (HookResult.new hook.id) run) engine in
      let executed = and_then (execute_filtered hook config engine) (λ r engine'.
        let run' = push_result r (count_result r run) in
        let rest = run_arena config hooks run' engine' in
        if not r.success && config.fail_fast then (engine', ok run') else rest) in
      if not (runs_for_stage hook config.stage) then passed_over else executed

  unfoldable pub execute_hooks_arena_optimized :
      List Hook
      → ExecutionConfig
      → Stateful (Engine S Env Code Failure) (SnpError Fault) (ExecutionResult Code Failure)
  unfolding run_arena summarize elapsed
  execute_hooks_arena_optimized hooks config engine =
      and_then
        (run_arena config hooks (record { results = []; success_count = 0; failure_count = 0 })
          engine)
        (λ run engine'. (
          engine',
          ok (
              summarize (length hooks)
                (unwrap_or (elapsed (host.now engine.world) (host.now engine'.world)) 0) run),
        ))
