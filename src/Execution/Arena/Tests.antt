-- ===== src/Execution/Arena/Tests.antt =====
-- An arena run of src/execution.rs with the engine of the example.
use Prim.Native.String.{◌++◌ as ◌+text+◌}
use snp.Prelude.{ℕ, ◌≡◌, refl, true, false, List, [], ◌∷◌, String, ok}
use snp.Prelude.Map
use snp.Core.Stage.{pre_push}
use snp.Core.Hook
use snp.Core.Hook.{Hook}
use snp.Execution.HookResult
use snp.Execution.HookResult.{HookExecutionResult}
use snp.Execution.Outcome.{ExecutionResult}
use snp.Execution.Engine.{Engine, HookCacheEntry}
use snp.Execution.Engine.Environments.{cache_environment}
use snp.Execution.Engine.Example.{host, fresh, lint, format, config}
use snp.Execution.Arena.{execute_hooks_arena_optimized}
use snp.Execution.Arena.Ran.{Ran}
use snp.Execution.Arena.Reported.{IsReport, execute_hooks_arena_optimized-IsReport}

abbrev push_only : Hook
push_only = record (Hook.new "push" "run-push" "system") { stages = pre_push ∷ [] }

abbrev ran : String → ℕ → HookExecutionResult ℕ String
ran id duration = HookResult.succeed 0 duration (HookResult.new id)

abbrev hooks : List Hook
hooks = lint ∷ push_only ∷ format ∷ []

-- The first hook also sets up the environment.
abbrev report : ExecutionResult ℕ String
report = record {
  success = true;
  hooks_executed = 3;
  hooks_passed = ran "lint" 115 ∷ ran "format" 100 ∷ [];
  hooks_failed = [];
  hooks_skipped = "push" ∷ [];
  total_duration = 215;
  files_modified = [];
}

abbrev entry : String → ℕ → ℕ → HookCacheEntry ℕ String
entry id duration timestamp = record {
  result = ran id duration;
  files_hash = "f1";
  hook_hash = "run-" +text+ id;
  timestamp = timestamp;
}

abbrev left : Engine ℕ String ℕ String
left =
    record (cache_environment host "system" ("clippy" ∷ []) "venv"
      (record fresh { world = 1015 })) {
        hook_cache =
            ("lint:f1", entry "lint" 115 1115) ∷ ("format:f1", entry "format" 100 1215) ∷ [];
        file_locks = ("a.rs", tt) ∷ [];
        world = 1215;
      }

hooks_run : execute_hooks_arena_optimized host hooks config fresh ≡ (left, ok report)
unfolding execute_hooks_arena_optimized Hook.new Map.get HookResult.succeed Map.insert
hooks_run = refl

-- A hook without files is skipped, and the run is a failure without a failed hook.
skipped_run_fails :
    execute_hooks_arena_optimized host (lint ∷ []) (record config { files = [] }) fresh ≡ (
      fresh,
      ok (record {
        success = false;
        hooks_executed = 1;
        hooks_passed = [];
        hooks_failed = [];
        hooks_skipped = "lint" ∷ [];
        total_duration = 0;
        files_modified = [];
      }),
    )
unfolding execute_hooks_arena_optimized Hook.new
skipped_run_fails = refl

execute_hooks_arena_optimized-IsReport_example :
    (rs : List (HookExecutionResult ℕ String)) × (failures : ℕ) × Ran host config hooks fresh left
      rs failures
    × IsReport false 3 rs failures report
execute_hooks_arena_optimized-IsReport_example =
    execute_hooks_arena_optimized-IsReport host config hooks fresh left report hooks_run
