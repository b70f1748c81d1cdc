-- ===== src/Execution/Parallel/Tests.antt =====
-- Two hooks of one environment in a parallel run of src/execution.rs.
use snp.Prelude.{
  count_if, ℕ, ◌≡◌, refl, true, List, [], ◌∷◌, none, String, ◌==◌, string_eq, Result, ok, err,
}
use snp.Prelude.Map
use snp.Core.Hook
use snp.Core.Hook.{Hook}
use snp.Concurrency.Tasks.{TaskResult}
use snp.Concurrency.Batch.{Task, Pool, AreAnswers, IsAnswer}
use snp.Execution.HookResult
use snp.Execution.HookResult.{HookExecutionResult}
use snp.Execution.Outcome
use snp.Execution.Outcome.{ExecutionResult}
use snp.Execution.Engine.{Engine, SnpError}
use snp.Execution.Engine.Environments.{cache_environment}
use snp.Execution.Engine.Example.{host, fresh, lint, format}
use snp.Execution.Parallel.{EnvironmentGroup, Report, analyze_hook_environments}
use snp.Execution.Engine.Single.{language_of}
use snp.Execution.Parallel.Grouped.{number_in_groups, analyze_hook_environments-number}

abbrev EngineState : Type 0
EngineState = Engine ℕ String ℕ String

abbrev HookResultState : Type 0
HookResultState = HookExecutionResult ℕ String

abbrev TestTask : Type 0
TestTask = Task EngineState (SnpError String) HookResultState

-- The tasks one after the other.
abbrev answer :
    TestTask → Result (SnpError String) HookResultState → Result String (TaskResult HookResultState)
answer task (ok r) =
    ok (record { task_id = task.0.id; result = ok r; duration = 1; retry_count = 0 })
answer task (err e) =
    ok (record { task_id = task.0.id; result = err "failed"; duration = 1; retry_count = 0 })

abbrev run_all :
    List TestTask → EngineState → EngineState × List (Result String (TaskResult HookResultState))
run_all [] s = (s, [])
run_all (task ∷ tasks) s =
    let (s', r) = task.1 s in let (s'', rs) = run_all tasks s' in (s'', answer task r ∷ rs)

answer-IsAnswer :
    (task : TestTask) (s s' : EngineState) (r : Result (SnpError String) HookResultState)
    → task.1 s ≡ (s', r)
    → IsAnswer {F = String} task (answer task r)
answer-IsAnswer task s s' (ok r) e = (refl, λ value same. let e' : r ≡ value = cc in (s, s', cc))
answer-IsAnswer task s s' (err x) e = (refl, λ value same. absurd (cc))

run_all-AreAnswers :
    (tasks : List TestTask) (s : EngineState) → AreAnswers tasks (run_all tasks s).1
run_all-AreAnswers [] s = tt
run_all-AreAnswers (task ∷ tasks) s =
    (answer-IsAnswer task s (task.1 s).0 (task.1 s).1 refl, run_all-AreAnswers tasks (task.1 s).0)

abbrev pool : Pool EngineState (SnpError String) HookResultState String
pool = record { join_all = run_all; to_string = λ e. e; join_all-AreAnswers = run_all-AreAnswers }

abbrev report : Report ℕ String
report = record { minus_one = 255; setup_failed = λ language id message. message }

abbrev hooks : List Hook
hooks = lint ∷ format ∷ []

abbrev groups : List EnvironmentGroup
groups =
    record {
      language = "system";
      dependencies = "clippy" ∷ [];
      repository_path = none;
      hooks = hooks;
    }
    ∷ []

hooks_grouped : analyze_hook_environments host hooks fresh ≡ (fresh, ok groups)
unfolding analyze_hook_environments Hook.new Map.get Map.insert
hooks_grouped = refl

analyze_hook_environments-number_example :
    number_in_groups (λ h. h.id == "lint") groups ≡ count_if (λ h. h.id == "lint") hooks
analyze_hook_environments-number_example =
    analyze_hook_environments-number host (λ h. h.id == "lint") hooks groups fresh fresh
      hooks_grouped

abbrev environments : List (String × String)
environments = ("env_system_e1", "venv") ∷ []

abbrev set_up : EngineState
set_up = cache_environment host "system" ("clippy" ∷ []) "venv" (record fresh { world = 1015 })

abbrev UsesClippy : Hook → Type 0
UsesClippy h = (language_of h ≡ "system") × (h.additional_dependencies ≡ "clippy" ∷ [])

abbrev ran : String → HookResultState
ran id = HookResult.succeed 0 100 (HookResult.new id)

abbrev tally : ExecutionResult ℕ String
tally = record {
  success = true;
  hooks_executed = 2;
  hooks_passed = ran "lint" ∷ ran "format" ∷ [];
  hooks_failed = [];
  hooks_skipped = [];
  total_duration = 200;
  files_modified = [];
}
