-- ===== src/Execution/Parallel.antt =====
-- The parallel run of src/execution.rs: hooks grouped by their environments, the environments set
-- up one after the other, then a batch of tasks.
pub mod Counted
pub mod Grouped
pub mod Keyed
pub mod Ready
pub mod SetUp
mod Tests
use Prim.Native.String.{◌++◌ as ◌+text+◌}
use snp.Prelude.{
  ℕ, Bool, if◌then◌else◌, List, [], ◌∷◌, ◌++◌, map, Option, none, some, String, string_eq, Result,
  ok, err,
}
use snp.Prelude.Map
use snp.Prelude.Stateful.{Stateful, ◌>>=◌, and_then, return}
use snp.Core.Hook.{Hook}
use snp.Concurrency.Tasks.{TaskResult}
use snp.Concurrency.Batch
use snp.Concurrency.Batch.{Task, Pool, BatchResult, normal, execute_batch}
use snp.Execution.HookResult
use snp.Execution.HookResult.{HookExecutionResult}
use snp.Execution.Outcome
use snp.Execution.Outcome.{ExecutionResult}
use snp.Execution.Sequential.{ExecutionConfig}
use snp.Execution.Engine.{Host, Engine, SnpError, environment_setup_failed}
use snp.Execution.Engine.Environments.{generate_environment_cache_key, get_or_create_environment}
use snp.Execution.Engine.Single.{
  language_of, repository_of, environment_config, execute_hook_with_environment,
}

pub record EnvironmentGroup : Type 0 where
  pub language : String
  pub dependencies : List String
  pub repository_path : Option String
  pub hooks : List Hook

-- How the failure of a task is told: the exit code -1 and `EnvironmentSetupFailed`.
pub record Report (Code Failure : Type 0) : Type 0 where
  pub minus_one : Code
  pub setup_failed : (language hook_id message : String) → Failure

-- The loop that appends the dependencies to the key.
unfoldable pub push_dependencies : List String → String → String
push_dependencies [] key = key
push_dependencies (d ∷ ds) key = push_dependencies ds (key +text+ (d +text+ ":"))

abbrev pub push_repository : Option String → String → String
push_repository none key = key
push_repository (some path) key = key +text+ ("repo:" +text+ path)

unfoldable pub group_key : Hook → Option String → String
unfolding language_of push_dependencies
group_key hook repository_path =
    push_repository repository_path
      (push_dependencies hook.additional_dependencies (language_of hook +text+ ":"))

abbrev pub Groups : Type 0
Groups = List (String × EnvironmentGroup)

-- A hook is added to the group of its key, which is made when there is none.
unfoldable pub add_to_group : Hook → Option String → Groups → Groups
unfolding group_key
add_to_group hook repository_path groups =
    let key = group_key hook repository_path in
    elim (Map.get key groups) [
      | some group ↦ Map.insert key (record group { hooks = group.hooks ++ hook ∷ [] }) groups
      | none ↦
          Map.insert key
            (record {
              language = language_of hook;
              dependencies = hook.additional_dependencies;
              repository_path = repository_path;
              hooks = hook ∷ [];
            })
            groups
    ]

unfoldable pub values : Groups → List EnvironmentGroup
values groups = map (λ p. p.1) groups

module _ {S Env Dependency Code Failure Fault : Type 0}
    (host : Host S Env Dependency Code Failure Fault) where
  unfoldable pub group_hooks :
      List Hook → Groups → Stateful (Engine S Env Code Failure) (SnpError Fault) Groups
  unfolding add_to_group repository_of
  group_hooks [] groups = return groups
  group_hooks (hook ∷ hooks) groups = do
    repository_path ← repository_of host hook
    group_hooks hooks (add_to_group hook repository_path groups)

  unfoldable pub analyze_hook_environments :
      List Hook → Stateful (Engine S Env Code Failure) (SnpError Fault) (List EnvironmentGroup)
  unfolding group_hooks values
  analyze_hook_environments hooks = do groups ← group_hooks hooks []; return (values groups)

  -- The loop over the groups; the first error ends it.
  unfoldable pub setup_from :
      ExecutionConfig
      → List EnvironmentGroup
      → List (String × Env)
      → Stateful (Engine S Env Code Failure) (SnpError Fault) (List (String × Env))
  unfolding environment_config get_or_create_environment generate_environment_cache_key
  setup_from config [] environments = return environments
  setup_from config (group ∷ groups) environments = do
    environment ←
        get_or_create_environment host group.language
          (environment_config config group.dependencies group.repository_path) group.dependencies
    setup_from config groups (
        Map.insert (generate_environment_cache_key host group.language group.dependencies)
          environment environments)

  unfoldable pub setup_environments_for_groups :
      ExecutionConfig
      → List EnvironmentGroup
      → Stateful (Engine S Env Code Failure) (SnpError Fault) (List (String × Env))
  unfolding setup_from
  setup_environments_for_groups config groups = setup_from config groups []

  abbrev pub HookTask : Type 0
  HookTask = Task (Engine S Env Code Failure) (SnpError Fault) (HookExecutionResult Code Failure)

  -- A task for a hook, if its environment is there.
  abbrev pub task_with : ExecutionConfig → Hook → Option Env → Result (SnpError Fault) HookTask
  task_with config hook none =
      err (environment_setup_failed (language_of hook) hook.id "Pre-setup environment not found")
  task_with config hook (some environment) = ok (
    Batch.with_timeout config.hook_timeout (Batch.with_priority normal (Batch.new hook.id)),
    execute_hook_with_environment host hook config environment,
  )

  unfoldable pub create_task :
      ExecutionConfig → List (String × Env) → Hook → Result (SnpError Fault) HookTask
  unfolding language_of generate_environment_cache_key execute_hook_with_environment Batch.new
      Batch.with_priority Batch.with_timeout
  create_task config environments hook = task_with config hook (
      Map.get (generate_environment_cache_key host (language_of hook) hook.additional_dependencies)
        environments)

  unfoldable pub create_tasks :
      ExecutionConfig
      → List (String × Env)
      → List Hook
      → List HookTask
      → Stateful (Engine S Env Code Failure) (SnpError Fault) (List HookTask)
  unfolding create_task
  create_tasks config environments [] tasks = return tasks
  create_tasks config environments (hook ∷ hooks) tasks = do
    task ← λ engine. (engine, create_task config environments hook)
    create_tasks config environments hooks (tasks ++ task ∷ [])

module _ {Code Failure : Type 0} (report : Report Code Failure) where
  abbrev pub add_success :
      Result String (HookExecutionResult Code Failure)
      → ExecutionResult Code Failure
      → ExecutionResult Code Failure
  add_success (err e) t = t
  add_success (ok r) t =
      if r.skipped then Outcome.add_skipped r.hook_id t else Outcome.add_result r t

  unfoldable pub add_successes :
      List (TaskResult (HookExecutionResult Code Failure))
      → ExecutionResult Code Failure
      → ExecutionResult Code Failure
  unfolding Outcome.add_skipped Outcome.add_result
  add_successes [] t = t
  add_successes (r ∷ rs) t = add_successes rs (add_success r.result t)

  -- A failed task as the failure of its hook. A task of this list has an error.
  abbrev pub failed_hook :
      String
      → ℕ
      → Result String (HookExecutionResult Code Failure)
      → HookExecutionResult Code Failure
  failed_hook id duration (ok r) = r
  failed_hook id duration (err message) =
      HookResult.failure report.minus_one duration (report.setup_failed "unknown" id message)
        (HookResult.new id)

  unfoldable pub add_failures :
      List (TaskResult (HookExecutionResult Code Failure))
      → ExecutionResult Code Failure
      → ExecutionResult Code Failure
  unfolding Outcome.add_result HookResult.failure HookResult.new
  add_failures [] t = t
  add_failures (r ∷ rs) t =
      add_failures rs (Outcome.add_result (failed_hook r.task_id r.duration r.result) t)

  unfoldable pub collect :
      BatchResult (HookExecutionResult Code Failure) → ExecutionResult Code Failure
  unfolding add_successes add_failures Outcome.new
  collect batch = add_failures batch.failed (add_successes batch.successful Outcome.new)

module _ {S Env Dependency Code Failure Fault F : Type 0}
    (host : Host S Env Dependency Code Failure Fault) (report : Report Code Failure)
    (pool : Pool
      (Engine S Env Code Failure)
      (SnpError Fault)
      (HookExecutionResult Code Failure)
      F) where
  -- The tasks that are given to the pool.
  unfoldable pub prepare_tasks :
      List Hook
      → ExecutionConfig
      → Stateful (Engine S Env Code Failure) (SnpError Fault) (List (HookTask host))
  unfolding analyze_hook_environments setup_environments_for_groups create_tasks
  prepare_tasks hooks config = do
    groups ← analyze_hook_environments host hooks
    environments ← setup_environments_for_groups host config groups
    create_tasks host config environments hooks []

  unfoldable pub execute_hooks_parallel :
      List Hook
      → ExecutionConfig
      → Stateful (Engine S Env Code Failure) (SnpError Fault) (ExecutionResult Code Failure)
  unfolding prepare_tasks execute_batch collect
  execute_hooks_parallel hooks config = do
    tasks ← prepare_tasks hooks config
    λ engine.
        let (engine', batch) = execute_batch pool tasks engine in
        (engine', ok (collect report batch))
