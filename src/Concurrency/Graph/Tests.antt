-- ===== src/Concurrency/Graph/Tests.antt =====
-- Small graphs of src/concurrency.rs, and the theorems on them.
use snp.Prelude.{
  ◌+◌, ◌≡◌, ◌⊎◌, ◌≢◌, refl, false, List, [], ◌∷◌, String, contains, string_eq, ◌==◌, ==_iff,
  if◌then◌else◌, ok, err, arith,
}
use snp.Prelude.Map
use snp.Concurrency.Graph.{
  invalid_dependency, circular_order, circular_path, out_of_fuel, TaskDependencyGraph,
  resolve_execution_order, link, link_all, drain, release, sources, push_edge, add_task, new,
  detect_cycles, visit, check_all, dfs_cycle_check, add_dependency, dependencies,
}
use snp.Concurrency.Graph.Pending.{edge_count}
use snp.Concurrency.Graph.Link.{ks}
use snp.Concurrency.Graph.Resolve.{
  IsGraph, DependsOn, IsOrderOf, resolve_execution_order_total, resolve_execution_order-IsOrderOf,
  resolve_execution_order_error,
}
use snp.Concurrency.Graph.Undo.{Keeps, add_dependency-err}
use snp.Concurrency.Graph.Fuel.{detect_cycles_terminates}
use snp.Concurrency.Graph.Cycles.{IsCycle, detect_cycles-IsCycle}
use snp.Concurrency.Graph.Build.{
  add_dependency-ok, add_task-IsGraph, new-IsGraph, push_edge-IsGraph,
}

abbrev G : Type 0
G = TaskDependencyGraph (Unit {0})

-- Two tasks without edges.
abbrev two : G
two = add_task (record { id = "b"; rest = tt }) (add_task (record { id = "a"; rest = tt }) new)

two-IsGraph : IsGraph two
two-IsGraph = add_task-IsGraph _ _ (add_task-IsGraph _ new new-IsGraph)

-- `b` depends on `a`.
abbrev chain : G
chain = push_edge "b" "a" two

chain-IsGraph : IsGraph chain
unfolding add_task new Map.insert
chain-IsGraph = push_edge-IsGraph "b" "a" two two-IsGraph refl

-- `a` and `b` depend on each other.
abbrev ring : G
ring = push_edge "a" "b" chain

ring-IsGraph : IsGraph ring
unfolding add_task Map.insert push_edge new
ring-IsGraph = push_edge-IsGraph "a" "b" chain chain-IsGraph refl

chain_order : resolve_execution_order chain ≡ ok ("a" ∷ "b" ∷ [])
unfolding resolve_execution_order link_all link drain release sources push_edge add_task new
    Map.insert Map.get
chain_order = refl

chain_ordered : IsOrderOf chain ("a" ∷ "b" ∷ [])
unfolding push_edge add_task new Map.insert Map.get edge_count
chain_ordered = (λ x. refl, (λ d h. ground (arith), (λ d h. ground (arith, ==_iff "a" d), tt)))

ring_error : resolve_execution_order ring ≡ err circular_order
unfolding resolve_execution_order link_all link drain release sources push_edge add_task new
    Map.insert Map.get
ring_error = refl

two_depends : (add_dependency "b" "a" two).1 ≡ ok tt
unfolding add_dependency detect_cycles visit check_all dfs_cycle_check dependencies push_edge
    add_task new Map.insert Map.get
two_depends = refl

resolve_execution_order_total_example :
    (r : List String) × (resolve_execution_order chain ≡ ok r) × IsOrderOf chain r
resolve_execution_order_total_example =
    resolve_execution_order_total chain ("a" ∷ "b" ∷ []) chain-IsGraph chain_ordered

resolve_execution_order-IsOrderOf_example : IsOrderOf chain ("a" ∷ "b" ∷ [])
resolve_execution_order-IsOrderOf_example =
    resolve_execution_order-IsOrderOf chain ("a" ∷ "b" ∷ []) chain-IsGraph chain_order

resolve_execution_order_error_example :
    ((t d : String) × (circular_order ≡ invalid_dependency t d)
      × DependsOn ring t d
      × (contains (ks ring) d ≡ false))
    ⊎ ((circular_order ≡ circular_order) × ((order : List String) → ¬ IsOrderOf ring order))
resolve_execution_order_error_example =
    resolve_execution_order_error ring circular_order ring-IsGraph ring_error

-- `a` depends on `b` already, so that `b` cannot depend on `a`.
chain_refuses : (add_dependency "a" "b" chain).1 ≡ err (circular_path "b" "a")
unfolding add_dependency detect_cycles visit check_all dfs_cycle_check dependencies push_edge
    add_task new Map.insert Map.get
chain_refuses = refl

chain_fresh : edge_count chain.edges "a" "b" ≡ 0
unfolding edge_count push_edge add_task new Map.insert Map.get
chain_fresh = refl

chain_IsMap : Map.IsMap chain.edges
unfolding push_edge add_task new Map.insert Map.get
chain_IsMap = λ k. ground arith

add_dependency-err_example : Keeps "a" "b" chain (add_dependency "a" "b" chain).0
add_dependency-err_example =
    add_dependency-err "a" "b" chain (circular_path "b" "a") chain_IsMap chain_fresh chain_refuses

detect_cycles_terminates_example : detect_cycles ring ≢ err out_of_fuel
detect_cycles_terminates_example = detect_cycles_terminates ring

ring_cycle : detect_cycles ring ≡ err (circular_path "b" "a")
unfolding detect_cycles visit check_all dfs_cycle_check dependencies push_edge add_task new
    Map.insert Map.get
ring_cycle = refl

detect_cycles-IsCycle_example : IsCycle ring.edges (circular_path "b" "a")
detect_cycles-IsCycle_example = detect_cycles-IsCycle ring (circular_path "b" "a") ring_cycle

add_dependency-ok_example :
    IsGraph (add_dependency "b" "a" two).0
    × ((add_dependency "b" "a" two).0.tasks ≡ two.tasks)
    × ((x y : String)
        → edge_count (add_dependency "b" "a" two).0.edges x y
          ≡ edge_count two.edges x y + (if "b" == x then (if "a" == y then 1 else 0) else 0))
add_dependency-ok_example = add_dependency-ok "b" "a" two two-IsGraph two_depends
