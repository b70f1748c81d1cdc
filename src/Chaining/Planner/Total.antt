-- ===== src/Chaining/Planner/Total.antt =====
-- Where `create_plan` of src/hook_chaining.rs comes to a plan.
use snp.Prelude.{
  ℕ, suc, ◌+◌, ◌≡◌, ◌≤◌, refl, ap, List, [], ◌∷◌, Option, none, some, String, string_eq, length,
  count, count_of_contains, count_of_absent, length_of_count-le, arith,
}
use snp.Prelude.Map
use snp.Prelude.Partial.{◌>>=◌}
use snp.Chaining.{ChainedHook, ExecutionStrategy}
use snp.Chaining.Resolver.{Nodes, DependencyGraph, build_graph}
use snp.Chaining.Resolver.Levels.{flatten, IsLevels}
use snp.Chaining.Resolver.Levels.Run.{length-keys}
use snp.Chaining.Resolver.Levels.Built.{build_graph-IsShape}
use snp.Chaining.Resolver.Dependents.{hook_ids, IsBacked, added-IsBacked}
use snp.Chaining.Planner.{
  ExecutionPhase, ExecutionPlan, trace_longest_path, roots, path_or_first, find_critical_path,
  create_phase, create_phases, plan_of, create_plan,
}
use snp.Chaining.Planner.Paths.{Ends, longest-Ends, trace-Ends}

-- The levels that a plan follows.
abbrev pub phase_hooks : List ExecutionPhase → List (List String)
phase_hooks [] = []
phase_hooks (p ∷ ps) = p.hooks ∷ phase_hooks ps

phase_hooks-create_phases :
    (strategy : ExecutionStrategy) (nodes : Nodes) (n : ℕ) (ls : List (List String))
    → phase_hooks (create_phases strategy nodes n ls) ≡ ls
unfolding create_phases create_phase
phase_hooks-create_phases strategy nodes n [] = refl
phase_hooks-create_phases strategy nodes n (l ∷ ls) =
    ap (λ (t : List (List String)). l ∷ t) (phase_hooks-create_phases strategy nodes (n + 1) ls)

build_graph-IsBacked :
    (hooks : List ChainedHook)
    → ((id : String) → count id (hook_ids hooks) ≤ 1)
    → IsBacked (build_graph hooks).nodes
build_graph-IsBacked hooks distinct i x h =
    let shape = build_graph-IsShape hooks in
    rw (shape.same_deps x) (added-IsBacked hooks distinct i x (rw (shape.same_dependents i) at h))

path_from_Ends :
    (nodes : Nodes) (o : Option (List String × ℕ))
    → Ends o
    → (path : List String) × ((o >>= λ best. some (path_or_first best.0 nodes)) ≡ some path)
path_from_Ends nodes none h = absurd h
path_from_Ends nodes (some p) h = (path_or_first p.0 nodes, refl)

find_critical_path_total :
    (g : DependencyGraph) (ls : List (List String))
    → IsBacked g.nodes
    → IsLevels g.nodes ls
    → (path : List String) × (find_critical_path g ≡ some path)
unfolding find_critical_path
find_critical_path_total g ls back h = path_from_Ends g.nodes _ (
    longest-Ends (trace_longest_path (suc (length g.nodes)) g.nodes) (roots g.nodes) ([], 0)
      (λ id _.
        trace-Ends g.nodes [] ls (suc (length g.nodes)) id back h.0 refl
          (λ x key. ground (
            arith,
            h.1 x,
            count_of_contains x (Map.keys g.nodes) key,
            count_of_absent x (flatten ls),
          ))
          refl
          (omega (
            arith,
            length-keys g.nodes,
            h.1 "",
            length_of_count-le (flatten ls) (Map.keys g.nodes) (λ a. omega (arith, h.1 a)) "",
          ))))

-- A chain whose hooks have different ids and whose graph has levels, in any order, comes to a plan
-- within the depth of its hooks, and the plan's phases are the levels of the graph, one by one.
pub create_plan_total :
    (strategy : ExecutionStrategy) (hooks : List ChainedHook) (ls : List (List String))
    → ((id : String) → count id (hook_ids hooks) ≤ 1)
    → IsLevels (build_graph hooks).nodes ls
    → (plan : ExecutionPlan) × (create_plan strategy (build_graph hooks) hooks ≡ some plan)
      × (phase_hooks plan.execution_phases ≡ (build_graph hooks).execution_levels)
unfolding create_plan
create_plan_total strategy hooks ls distinct h =
    let g = build_graph hooks in
    let (path, found) = find_critical_path_total g ls (build_graph-IsBacked hooks distinct) h in
    (
      plan_of strategy g hooks path,
      ap (λ (o : Option (List String)). o >>= λ p. some (plan_of strategy g hooks p)) found,
      phase_hooks-create_phases strategy g.nodes 0 g.execution_levels,
    )
