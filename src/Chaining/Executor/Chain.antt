-- ===== src/Chaining/Executor/Chain.antt =====
-- `HookChainExecutor::execute_chain` of src/hook_chaining.rs as a whole, with `plan_execution` and
-- `validate_dependencies`. The strongly connected components are a parameter.
pub mod Ordered
use snp.Prelude.{ℕ, List, Option, none, some, String, Result, ok, err, ◌>>=◌, ◌>>◌}
use snp.Chaining.{HookChain}
use snp.Chaining.Resolver.{DependencyEdge, ChainError, out_of_fuel, panic, build_graph}
use snp.Chaining.Resolver
use snp.Chaining.Conditions.{World}
use snp.Chaining.Planner.{ExecutionPlan, create_plan}
use snp.Chaining.Executor.{ChainExecutionResult, run_phases, new_state}

abbrev pub or_error {ℓ} : {A : Type ℓ} → ChainError → Option A → Result ChainError A
or_error x none = err x
or_error x (some a) = ok a

unfoldable pub plan_execution : HookChain → Result ChainError ExecutionPlan
plan_execution chain =
    or_error out_of_fuel
      (create_plan chain.execution_strategy (build_graph chain.hooks) chain.hooks)

module _ (tarjan_scc : List String → List DependencyEdge → List (List String)) where
  unfoldable pub validate_dependencies : HookChain → Result ChainError (Unit {0})
  validate_dependencies chain = Resolver.validate_dependencies tarjan_scc (build_graph chain.hooks)

  unfoldable pub execute_chain :
      World → (ℕ → ℕ) → HookChain → Result ChainError ChainExecutionResult
  execute_chain world elapsed chain =
      let graph = build_graph chain.hooks in
      do
        Resolver.validate_dependencies tarjan_scc graph
        plan ← or_error out_of_fuel (create_plan chain.execution_strategy graph chain.hooks)
        s ← or_error panic (
            run_phases world elapsed chain.failure_strategy chain.hooks plan.execution_phases
              new_state)
        ok s.result
