-- ===== src/Chaining/Executor/Chain/Ordered.antt =====
-- The order of the runs of `execute_chain` of src/hook_chaining.rs.
use snp.Prelude.{ℕ, ◌≡◌, refl, true, List, [], Option, none, some, String, all, ok, bind-ok, subst}
use snp.Prelude.Partial.{Always}
use snp.Chaining.{HookChain}
use snp.Chaining.Resolver.{DependencyEdge, ChainError, out_of_fuel, panic, build_graph}
use snp.Chaining.Resolver
use snp.Chaining.Conditions.{World}
use snp.Chaining.Planner.{create_plan}
use snp.Chaining.Executor.{ChainExecutionResult, run_phases, new_state}
use snp.Chaining.Executor.Results.{in_order, IsConsistent}
use snp.Chaining.Executor.Invariant.{run_phases-IsConsistent}
use snp.Chaining.Executor.Chain.{or_error, execute_chain}

or_error-ok :
    {A : Type 0} (x : ChainError) (o : Option A) {a : A} → or_error x o ≡ ok a → o ≡ some a
or_error-ok x none h = absurd (cc)
or_error-ok x (some b) h = cc

Always-some : {A : Type 0} (P : A → Type 0) (o : Option A) {a : A} → Always P o → o ≡ some a → P a
Always-some P none h e = absurd (cc)
Always-some P (some b) h e = subst P (cc) h

new_state-IsConsistent : (chain : HookChain) → IsConsistent chain.hooks new_state
new_state-IsConsistent chain = record {
  ordered = refl;
  executed = λ d. refl;
  failed = λ d. refl;
  success = refl;
}

-- Whatever the strategies, the conditions, the clock and the components are: where a chain runs to
-- its result, each hook that was executed stands behind successful results of all the hooks that it
-- depends on, and the chain is a success exactly when all its results are.
pub execute_chain-in_order :
    (tarjan_scc : List String → List DependencyEdge → List (List String)) (world : World)
    (elapsed : ℕ → ℕ) (chain : HookChain) (r : ChainExecutionResult)
    → execute_chain tarjan_scc world elapsed chain ≡ ok r
    → (in_order chain.hooks [] r.executed_hooks ≡ true)
      × (r.success ≡ all (λ x. x.success) r.executed_hooks)
unfolding execute_chain
execute_chain-in_order tarjan_scc world elapsed chain r h =
    let (_, _, planned) =
      bind-ok (Resolver.validate_dependencies tarjan_scc (build_graph chain.hooks)) _ h in
    let (plan, _, ran) =
      bind-ok
        (or_error out_of_fuel
          (create_plan chain.execution_strategy (build_graph chain.hooks) chain.hooks))
        _ planned in
    let (s, done, result) =
      bind-ok
        (or_error panic (
          run_phases world elapsed chain.failure_strategy chain.hooks plan.execution_phases
            new_state))
        _ ran in
    let c : IsConsistent chain.hooks s =
      Always-some (IsConsistent chain.hooks) _
        (run_phases-IsConsistent chain.hooks world elapsed chain.failure_strategy
          plan.execution_phases new_state (new_state-IsConsistent chain))
        (or_error-ok panic _ done) in
    let same : s.result ≡ r = cc in
    subst
      (λ (x : ChainExecutionResult).
        (in_order chain.hooks [] x.executed_hooks ≡ true)
        × (x.success ≡ all (λ y. y.success) x.executed_hooks))
      same (c.ordered, c.success)
