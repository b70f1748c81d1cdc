-- ===== src/Execution/Parallel/Counted.antt =====
-- What the tally of a parallel run (src/execution.rs) counts.
use snp.Prelude.{
  suc, ◌+◌, ◌≡◌, arith, List, [], ◌∷◌, ◌++◌, String, length, length-append, Result, ok, err, ap,
}
use snp.Prelude.Stateful.{and_then, and_then-ok}
use snp.Core.Hook.{Hook}
use snp.Concurrency.Batch.{Pool}
use snp.Execution.HookResult.{HookExecutionResult}
use snp.Execution.Outcome
use snp.Execution.Sequential.{ExecutionConfig}
use snp.Execution.Engine.{Host, Engine, SnpError}
use snp.Execution.Parallel.{
  Report, HookTask, create_task, create_tasks, prepare_tasks, analyze_hook_environments,
  setup_environments_for_groups,
}

module _ {S Env Dependency Code Failure Fault : Type 0}
    (host : Host S Env Dependency Code Failure Fault) (config : ExecutionConfig)
    (environments : List (String × Env)) where
  -- The step of the loop for a hook whose task is made or refused.
  length-next_tasks :
      (hooks : List Hook) (task : Result (SnpError Fault) (HookTask host))
      (tasks made : List (HookTask host)) (engine engine' : Engine S Env Code Failure)
      → ((ts : List (HookTask host))
          → create_tasks host config environments hooks ts engine ≡ (engine', ok made)
          → length made ≡ length ts + length hooks)
      → and_then (engine, task) (λ t. create_tasks host config environments hooks (tasks ++ t ∷ []))
        ≡ (engine', ok made)
      → length made ≡ suc (length tasks + length hooks)
  length-next_tasks hooks (err x) tasks made engine engine' ih h = absurd (cc)
  length-next_tasks hooks (ok t) tasks made engine engine' ih h =
      omega (arith, ih (tasks ++ t ∷ []) h, length-append {0} tasks (t ∷ []))

  -- The loop makes one task for each hook.
  length-create_tasks :
      (hooks : List Hook) (tasks made : List (HookTask host))
      (engine engine' : Engine S Env Code Failure)
      → create_tasks host config environments hooks tasks engine ≡ (engine', ok made)
      → length made ≡ length tasks + length hooks
  unfolding create_tasks
  length-create_tasks [] tasks made engine engine' h =
      let e : tasks ≡ made = cc in omega (arith, ap (λ (ts : List (HookTask host)). length ts) e)
  length-create_tasks (hook ∷ hooks) tasks made engine engine' h = omega (
    arith,
    length-next_tasks hooks (create_task host config environments hook) tasks made engine engine'
        (λ ts k. length-create_tasks hooks ts made engine engine' k) h,
  )

module _ {S Env Dependency Code Failure Fault F : Type 0}
    (host : Host S Env Dependency Code Failure Fault) (report : Report Code Failure)
    (pool : Pool
      (Engine S Env Code Failure)
      (SnpError Fault)
      (HookExecutionResult Code Failure)
      F) where
  pub length-prepare_tasks :
      (hooks : List Hook) (config : ExecutionConfig) (engine engine' : Engine S Env Code Failure)
      (tasks : List (HookTask host))
      → prepare_tasks host report pool hooks config engine ≡ (engine', ok tasks)
      → length tasks ≡ length hooks
  unfolding prepare_tasks
  length-prepare_tasks hooks config engine engine' tasks h =
      let (groups, s, found, h') = and_then-ok (analyze_hook_environments host hooks engine) _ h in
      let (environments, s', set_up, h'') =
        and_then-ok (setup_environments_for_groups host config groups s) _ h' in
      omega (arith, length-create_tasks host config environments hooks [] tasks s' engine' h'')
