-- ===== src/Execution/Parallel/Ready.antt =====
-- Every hook of a parallel run (src/execution.rs) finds the environment that was set up for it.
use snp.Prelude.{◌≡◌, List, [], ◌∷◌, string_eq}
use snp.Prelude.Map
use snp.Core.Hook.{Hook}
use snp.Concurrency.Batch
use snp.Concurrency.Batch.{normal}
use snp.Execution.Sequential.{ExecutionConfig}
use snp.Execution.Engine.{Host, Engine}
use snp.Execution.Engine.Single.{execute_hook_with_environment}
use snp.Execution.Parallel.{EnvironmentGroup, HookTask}
use snp.Execution.Parallel.Keyed.{hook_environment}
use snp.Execution.Parallel.SetUp.{IsGot}

module _ {S Env Dependency Code Failure Fault : Type 0}
    (host : Host S Env Dependency Code Failure Fault) where
  -- The task of a hook runs it in an environment that was got for a group with the hook's language
  -- and dependencies as its key.
  abbrev pub RunsIn : ExecutionConfig → List EnvironmentGroup → Hook → HookTask host → Type 0
  RunsIn config groups hook task =
      (x : Env) × IsGot host config groups (hook_environment host hook) x
      × (task ≡ (
        Batch.with_timeout config.hook_timeout (Batch.with_priority normal (Batch.new hook.id)),
        execute_hook_with_environment host hook config x,
      ))

  -- The tasks, one for each hook, in the order of the hooks.
  abbrev pub AreReady :
      ExecutionConfig → List EnvironmentGroup → List Hook → List (HookTask host) → Type 0
  AreReady config groups [] [] = Unit {0}
  AreReady config groups [] (t ∷ ts) = ⊥
  AreReady config groups (h ∷ hs) [] = ⊥
  AreReady config groups (h ∷ hs) (t ∷ ts) = RunsIn config groups h t × AreReady config groups hs ts
