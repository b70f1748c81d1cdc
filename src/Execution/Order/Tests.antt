-- ===== src/Execution/Order/Tests.antt =====
-- Two hooks, one of which depends on the other, in a run of src/execution.rs.
use snp.Prelude.{
  ℕ, ◌+◌, ◌≡◌, ◌≤◌, refl, true, false, List, [], ◌∷◌, ◌++◌, map, String, string_eq, contains, count,
  none, if◌then◌else◌, length, ok,
}
use snp.Prelude.Map
use snp.Core.Stage.{pre_commit}
use snp.Core.Hook
use snp.Core.Hook.{Hook}
use snp.Concurrency.Graph
use snp.Concurrency.Graph.Drain.{IsOrdered}
use snp.Execution.HookResult
use snp.Execution.HookResult.{HookExecutionResult}
use snp.Execution.Outcome
use snp.Execution.Outcome.{ExecutionResult}
use snp.Execution.Sequential.{ExecutionConfig, Runner, step, run_from, execute_hooks_sequential}
use snp.Execution.Sequential.FailFast.{run_from_failed, execute_hooks_sequential_fail_fast}
use snp.Execution.Order.{
  has_dependencies, add_tasks, add_dependencies, add_all_dependencies, pick,
  resolve_hook_dependencies, use_parallel, execute_hooks,
}
use snp.Execution.Order.Sorted.{declared, ids, resolve_hook_dependencies-sorted}
use snp.Execution.Order.Trace.{traced, AreCalls, execute_hooks-AreCalls}

abbrev lint : Hook
lint = Hook.new "lint" "run-lint" "system"

abbrev format : Hook
format = record (Hook.new "format" "run-format" "system") { depends_on = "lint" ∷ [] }

abbrev hooks : List Hook
hooks = format ∷ lint ∷ []

-- Every hook fails, and the engine counts its calls.
abbrev failing : Runner ℕ ℕ String String
failing = record {
  execute_single_hook =
      λ hook config n. (n + 1, ok (HookResult.failure 1 20 "exit code" (HookResult.new hook.id)));
  minus_one = 255;
  environment_setup_failed = λ hook e. e;
}

abbrev config : ExecutionConfig
config = record {
  stage = pre_commit;
  files = "a.rs" ∷ [];
  fail_fast = true;
  hook_timeout = 60000;
  max_parallel_hooks = 4;
  working_directory = none;
  incremental_config = none;
}

abbrev parallel : ExecutionConfig → List Hook → ℕ → ℕ × ExecutionResult ℕ String
parallel c hs n = (n, Outcome.new)

hooks_resolved : resolve_hook_dependencies hooks ≡ ok (lint ∷ format ∷ [])
unfolding Hook.new resolve_hook_dependencies has_dependencies add_tasks add_dependencies
    add_all_dependencies pick Graph.new Graph.add_task Graph.add_dependency Graph.push_edge
    Graph.detect_cycles Graph.check_all Graph.dfs_cycle_check Graph.visit Graph.dependencies
    Graph.resolve_execution_order Graph.link_all Graph.link Graph.drain Graph.release Graph.sources
    Map.get Map.insert
hooks_resolved = refl

hooks_depend : has_dependencies hooks ≡ true
unfolding has_dependencies Hook.new
hooks_depend = refl

resolve_hook_dependencies-sorted_example :
    IsOrdered (declared hooks) [] (ids (lint ∷ format ∷ []))
    × ((id : String)
        → count id (ids (lint ∷ format ∷ [])) ≡ (if contains (ids hooks) id then 1 else 0))
resolve_hook_dependencies-sorted_example =
    resolve_hook_dependencies-sorted hooks (lint ∷ format ∷ []) hooks_depend hooks_resolved

abbrev all_run : ExecutionConfig
all_run = record config { fail_fast = false }

abbrev not_parallel :
    ExecutionConfig → List Hook → ℕ × List String → (ℕ × List String) × ExecutionResult ℕ String
not_parallel c hs s = (s, Outcome.new)

abbrev tally : ExecutionResult ℕ String
tally = (execute_hooks_sequential failing all_run (lint ∷ format ∷ []) 0).1

hooks_executed :
    execute_hooks (traced failing) not_parallel all_run hooks (0, [])
    ≡ ok ((2, "lint" ∷ "format" ∷ []), tally)
unfolding execute_hooks use_parallel has_dependencies Hook.new execute_hooks_sequential run_from
    step
hooks_executed = rw hooks_resolved refl

execute_hooks-AreCalls_example : AreCalls all_run hooks ("lint" ∷ "format" ∷ [])
execute_hooks-AreCalls_example =
    execute_hooks-AreCalls failing not_parallel all_run hooks 0 2 ("lint" ∷ "format" ∷ []) tally
      hooks_depend hooks_executed

execute_hooks_sequential_fail_fast_example :
    length (execute_hooks_sequential failing config hooks 0).1.hooks_failed ≤ 1
execute_hooks_sequential_fail_fast_example =
    execute_hooks_sequential_fail_fast failing config refl hooks 0

-- A tally with one failure.
abbrev failed_once : ExecutionResult ℕ String
failed_once = Outcome.add_result (HookResult.new "test") Outcome.new

failed_once_failed : failed_once.success ≡ false
unfolding Outcome.add_result HookResult.new
failed_once_failed = refl

run_from_failed_case :
    run_from failing config hooks 3 failed_once
    ≡ (3, record failed_once { hooks_skipped = failed_once.hooks_skipped ++ map (λ h. h.id) hooks })
run_from_failed_case = run_from_failed failing config refl hooks 3 failed_once failed_once_failed
