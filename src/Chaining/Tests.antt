-- ===== src/Chaining/Tests.antt =====
-- A chain of three hooks for src/hook_chaining.rs: the second fails, and the third depends on it.
use snp.Prelude.{
  ℕ, zero, suc, ◌≡◌, ◌≢◌, ◌≤◌, refl, true, false, string_eq, count, arith, all, List, [], ◌∷◌, map,
  none, some, String, ok,
}
use snp.Prelude.Map
use snp.Core.Hook
use snp.Core.Hook.{Hook}
use snp.Chaining.{
  ChainedHook, HookChain, ExecutionStrategy, FailureStrategy, independent, retry_on_failure,
  previous_hook_success,
}
use snp.Chaining.Resolver
use snp.Chaining.Resolver.{DependencyEdge, build_graph}
use snp.Chaining.Resolver.Levels.{IsLayered, IsLevels}
use snp.Chaining.Resolver.Dependents.{hook_ids}
use snp.Chaining.Resolver.Levels.Chain.{HasLevels, build_graph-HasLevels}
use snp.Chaining.Conditions.{World, evaluate_conditions}
use snp.Chaining.Conditions.Laws.{contextual_never_holds}
use snp.Chaining.Single
use snp.Chaining.Single.{execute_single_hook_with_behavior}
use snp.Chaining.Planner
use snp.Chaining.Planner.Total.{phase_hooks, create_plan_total}
use snp.Chaining.Executor
use snp.Chaining.Executor.{ChainExecutionResult}
use snp.Chaining.Executor.Results.{in_order}
use snp.Chaining.Executor.Chain.{execute_chain}
use snp.Chaining.Executor.Chain.Ordered.{execute_chain-in_order}

abbrev chained : String → String → List String → ChainedHook
chained id entry dependencies = record {
  hook = Hook.new id entry "system";
  dependencies = dependencies;
  conditions = [];
  failure_behavior = independent;
  priority = 50;
  timeout_override = none;
}

abbrev build : ChainedHook
build = chained "build" "make" []

abbrev check : ChainedHook
check = chained "check" "false" ("build" ∷ [])

abbrev deploy : ChainedHook
deploy = chained "deploy" "make deploy" ("check" ∷ [])

abbrev three : List ChainedHook
three = deploy ∷ build ∷ check ∷ []

abbrev chain : HookChain
chain = record {
  hooks = three;
  execution_strategy = ExecutionStrategy.sequential;
  failure_strategy = FailureStrategy.continue_independent;
  max_parallel_chains = 1;
  timeout = none;
}

-- No file exists, no pattern compiles, nothing is registered.
abbrev bare : World
bare = record {
  exists = λ path. false;
  metadata = λ path. none;
  regex = λ pattern. none;
  path_starts_with = λ path prefix. false;
  variables = [];
  evaluators = [];
}

-- The components of a graph without cycles.
abbrev singletons : List String → List DependencyEdge → List (List String)
singletons ids edges = map (λ id. id ∷ []) ids

abbrev clock : ℕ → ℕ
clock attempt = 20

levels_of_three :
    (build_graph three).execution_levels ≡ ("build" ∷ []) ∷ ("check" ∷ []) ∷ ("deploy" ∷ []) ∷ []
unfolding build_graph Resolver.add_nodes Resolver.add_all_edges Resolver.add_edges Resolver.modify
    Resolver.calculate_execution_levels Resolver.assign_levels Resolver.ready Resolver.set_levels
    Map.get Map.insert Hook.new
levels_of_three = refl

-- A hook that depends on itself has no level, and takes the levels of all others with it.
levels_of_a_loop :
    (build_graph (build ∷ chained "loop" "make" ("loop" ∷ []) ∷ [])).execution_levels ≡ []
unfolding build_graph Resolver.add_nodes Resolver.add_all_edges Resolver.add_edges Resolver.modify
    Resolver.calculate_execution_levels Resolver.assign_levels Resolver.ready Resolver.set_levels
    Map.get Map.insert Hook.new
levels_of_a_loop = refl

build_graph-HasLevels_example : HasLevels three (build_graph three)
build_graph-HasLevels_example = build_graph-HasLevels three

contextual_never_holds_example :
    evaluate_conditions bare (previous_hook_success "build" ∷ []) ≢ ok true
contextual_never_holds_example =
    contextual_never_holds bare (previous_hook_success "build" ∷ []) refl

abbrev stubborn : ChainedHook
stubborn = record check { failure_behavior = retry_on_failure 2 100 }

abbrev message : String → Executor.MessageType → String → Executor.HookMessage
message id type content = record {
  from_hook = id;
  to_hook = none;
  message_type = type;
  content = content;
}

abbrev phase : ℕ → List String → List String → Executor.PhaseResult
phase n executed failed = record {
  phase_number = n;
  hooks_executed = executed;
  hooks_failed = failed;
  parallel_efficiency = (1, 1);
}

abbrev outcome : ChainExecutionResult
outcome = record {
  success = false;
  executed_hooks = Single.attempt_result clock build 0 ∷ Single.attempt_result clock check 0 ∷ [];
  skipped_hooks = "deploy" ∷ [];
  failed_dependencies = ("deploy", "check" ∷ []) ∷ [];
  execution_phases = phase 0 ("build" ∷ []) [] ∷ phase 1 [] ("check" ∷ []) ∷ phase 2 [] [] ∷ [];
  communication_log =
      message "build" Executor.information "Successfully executed: Hook build executed successfully"
      ∷ message "check" Executor.error "Execution failed: Hook check failed"
      ∷ [];
}

chain_executed : execute_chain singletons bare clock chain ≡ ok outcome
unfolding execute_chain build_graph Resolver.add_nodes Resolver.add_all_edges Resolver.add_edges
    Resolver.modify Resolver.calculate_execution_levels Resolver.assign_levels Resolver.ready
    Resolver.set_levels Resolver.validate_dependencies Resolver.check_all_known Resolver.check_known
    Resolver.detect_cycles Resolver.large Map.get Map.insert Hook.new Planner.create_plan
    Planner.create_phases Planner.create_phase Planner.durations Planner.find_critical_path
    Planner.trace_longest_path Planner.roots Planner.max_parallelism_of Executor.run_phases
    Executor.run_phase Executor.run_mode Executor.run_hooks Executor.select_hooks
    Executor.after_hook evaluate_conditions Single.attempt_result Single.attempt_loop
    Single.execute_single_hook_with_behavior Single.simulated_success Single.times_out
    Single.simulated_output
chain_executed = refl

execute_chain-in_order_example :
    (in_order three [] outcome.executed_hooks ≡ true)
    × (false ≡ all (λ x. x.success) outcome.executed_hooks)
execute_chain-in_order_example =
    execute_chain-in_order singletons bare clock chain outcome chain_executed

abbrev three_levels : List (List String)
three_levels = ("build" ∷ []) ∷ ("check" ∷ []) ∷ ("deploy" ∷ []) ∷ []

three_ids : Map.keys (build_graph three).nodes ≡ "deploy" ∷ "build" ∷ "check" ∷ []
unfolding build_graph Resolver.add_nodes Resolver.add_all_edges Resolver.add_edges Resolver.modify
    Resolver.calculate_execution_levels Resolver.assign_levels Resolver.ready Resolver.set_levels
    Map.get Map.insert Hook.new
three_ids = refl

three-IsLayered : IsLayered (build_graph three).nodes [] three_levels
unfolding build_graph Resolver.add_nodes Resolver.add_all_edges Resolver.add_edges Resolver.modify
    Resolver.calculate_execution_levels Resolver.assign_levels Resolver.ready Resolver.set_levels
    Map.get Map.insert Hook.new
three-IsLayered = (refl, (refl, (refl, tt)))

three-IsLevels : IsLevels (build_graph three).nodes three_levels
three-IsLevels = (three-IsLayered, λ a. rw three_ids (omega arith))

abbrev names : List String
names = "deploy" ∷ "build" ∷ "check" ∷ []

names_distinct : (id : String) → count id names ≤ 1
unfolding Map.insert
names_distinct = Map.insert-IsMap {V = ℕ} "check" 0 (("deploy", 0) ∷ ("build", 0) ∷ []) (
    Map.insert-IsMap {V = ℕ} "build" 0 (("deploy", 0) ∷ [])
      (Map.insert-IsMap {V = ℕ} "deploy" 0 [] (λ id. omega arith)))

three_distinct : (id : String) → count id (hook_ids three) ≤ 1
unfolding Hook.new
three_distinct id = names_distinct id

create_plan_total_example :
    (plan : Planner.ExecutionPlan) × (Planner.create_plan ExecutionStrategy.max_parallel
        (build_graph three)
        three
      ≡ some plan)
    × (phase_hooks plan.execution_phases ≡ (build_graph three).execution_levels)
create_plan_total_example =
    create_plan_total ExecutionStrategy.max_parallel three three_levels three_distinct
      three-IsLevels

-- A hook that depends on itself and on a first hook: the search of the critical path never ends,
-- however deep it goes.
abbrev looping : Resolver.Nodes
looping =
    ("build", record (Resolver.node_of build) { dependents = "loop" ∷ [] })
    ∷ (
      "loop",
      record (Resolver.node_of (chained "loop" "make" ("build" ∷ "loop" ∷ []))) {
        dependents = "loop" ∷ [];
      },
    )
    ∷ []

loop_graph :
    (build_graph (build ∷ chained "loop" "make" ("build" ∷ "loop" ∷ []) ∷ [])).nodes ≡ looping
unfolding build_graph Resolver.add_nodes Resolver.add_all_edges Resolver.add_edges Resolver.modify
    Resolver.calculate_execution_levels Resolver.assign_levels Resolver.ready Resolver.set_levels
    Map.get Map.insert Hook.new
loop_graph = refl

loop_never_ends : (fuel : ℕ) → Planner.trace_longest_path fuel looping "loop" ≡ none
unfolding Planner.trace_longest_path Map.get Hook.new
loop_never_ends zero = refl
loop_never_ends (suc fuel) = rw (loop_never_ends fuel) refl

loop_validated :
    Resolver.validate_dependencies singletons
      (build_graph (build ∷ chained "loop" "make" ("build" ∷ "loop" ∷ []) ∷ []))
    ≡ ok tt
unfolding build_graph Resolver.add_nodes Resolver.add_all_edges Resolver.add_edges Resolver.modify
    Resolver.calculate_execution_levels Resolver.assign_levels Resolver.ready Resolver.set_levels
    Map.get Map.insert Hook.new Resolver.validate_dependencies Resolver.check_all_known
    Resolver.check_known Resolver.detect_cycles Resolver.large
loop_validated = refl
