-- ===== src/Chaining/Resolver/Levels/Built.antt =====
-- The levels of the graph that `DependencyResolver::build_graph` of src/hook_chaining.rs makes.
use snp.Prelude.{
  suc, ◌≡◌, refl, sym, ◌∙◌, List, [], ◌∷◌, ◌++◌, String, string_eq, length, contains, all, Result,
  ok, err, arith, ◌⊎◌, inl, inr, if_ind,
}
use snp.Prelude.Map
use snp.Chaining.{ChainedHook}
use snp.Chaining.Resolver.{
  Nodes, ChainError, dependency_graph_failed, missing_dependency, circular_dependency, out_of_fuel,
  panic, DependencyEdge, DependencyGraph, assign_levels, calculate_execution_levels, unleveled,
  build_graph, add_nodes, node_of, add_dependent, add_edges, add_all_edges, write_levels,
}
use snp.Chaining.Resolver.Levels.{
  deps_at, IsLayered, IsLevels, IsShape, all_of_member, all_of_members, modify-keys,
}
use snp.Chaining.Resolver.Levels.Run.{Outcome, assign_levels-Outcome}

IsLayered-same :
    (nodes start : Nodes) (seen : List String) (ls : List (List String))
    → ((id : String) → deps_at id nodes ≡ deps_at id start)
    → IsLayered start seen ls
    → IsLayered nodes seen ls
IsLayered-same nodes start seen [] same h = tt
IsLayered-same nodes start seen (l ∷ ls) same h = (
  all_of_members _ l
      (λ a m. rw (same a) (all_of_member (λ id. all (contains seen) (deps_at id start)) l a h.0 m)),
  IsLayered-same nodes start (seen ++ l) ls same h.1,
)

IsLevels-shape :
    (nodes start : Nodes) (ls : List (List String))
    → IsShape nodes start
    → IsLevels start ls
    → IsLevels nodes ls
IsLevels-shape nodes start ls shape h =
    (IsLayered-same nodes start [] ls shape.same_deps h.0, λ a. rw shape.same_keys (h.1 a))

IsLevels-unshape :
    (nodes start : Nodes) (ls : List (List String))
    → IsShape nodes start
    → IsLevels nodes ls
    → IsLevels start ls
IsLevels-unshape nodes start ls shape h = (
  IsLayered-same start nodes [] ls (λ id. sym (shape.same_deps id)) h.0,
  λ a. rw (← shape.same_keys) (h.1 a),
)

-- The graph holds levels of all its hooks, or none where there are none.
abbrev pub IsLeveled : DependencyGraph → Type 0
IsLeveled g =
    IsLevels g.nodes g.execution_levels
    ⊎ ((g.execution_levels ≡ []) × ((ls : List (List String)) → ¬ IsLevels g.nodes ls))

write_levels-IsLeveled :
    (g : DependencyGraph) (r : Nodes × Result ChainError (List (List String)))
    → g.execution_levels ≡ []
    → Outcome g.nodes r
    → IsLeveled (write_levels g r).0
write_levels-IsLeveled g (nodes, ok ls) fresh h = inl (IsLevels-shape nodes g.nodes ls h.0 h.1)
write_levels-IsLeveled g (nodes, err (dependency_graph_failed ids)) fresh h =
    inr (fresh, λ ls l. h.1 ls (IsLevels-unshape nodes g.nodes ls h.0 l))
write_levels-IsLeveled g (nodes, err (missing_dependency id d)) fresh h = elim h [ ]
write_levels-IsLeveled g (nodes, err (circular_dependency c)) fresh h = elim h [ ]
write_levels-IsLeveled g (nodes, err out_of_fuel) fresh h = elim h [ ]
write_levels-IsLeveled g (nodes, err panic) fresh h = elim h [ ]

levels-Outcome :
    (g : DependencyGraph)
    → Map.IsMap g.nodes
    → Outcome g.nodes (assign_levels (suc (length g.nodes)) g.nodes [] [] 0)
levels-Outcome g distinct =
    assign_levels-Outcome (suc (length g.nodes)) g.nodes g.nodes [] [] 0 distinct
      (record {
        shape = record {
          same_ready = λ a. refl;
          same_keys = refl;
          same_deps = λ j. refl;
          same_dependents = λ j. refl;
        };
        layered = tt;
        placed = refl;
        once = λ a. omega arith;
      })
      (omega arith)

calculate_execution_levels-IsLeveled :
    (g : DependencyGraph)
    → Map.IsMap g.nodes
    → g.execution_levels ≡ []
    → IsLeveled (calculate_execution_levels g).0
unfolding calculate_execution_levels
calculate_execution_levels-IsLeveled g distinct fresh =
    write_levels-IsLeveled g _ fresh (levels-Outcome g distinct)

write_levels-IsShape :
    (g : DependencyGraph) (r : Nodes × Result ChainError (List (List String)))
    → Outcome g.nodes r
    → IsShape (write_levels g r).0.nodes g.nodes
write_levels-IsShape g (nodes, ok ls) h = h.0
write_levels-IsShape g (nodes, err (dependency_graph_failed ids)) h = h.0
write_levels-IsShape g (nodes, err (missing_dependency id d)) h = elim h [ ]
write_levels-IsShape g (nodes, err (circular_dependency c)) h = elim h [ ]
write_levels-IsShape g (nodes, err out_of_fuel) h = elim h [ ]
write_levels-IsShape g (nodes, err panic) h = elim h [ ]

add_nodes-IsMap :
    (hs : List ChainedHook) (nodes : Nodes) → Map.IsMap nodes → Map.IsMap (add_nodes hs nodes)
unfolding add_nodes
add_nodes-IsMap [] nodes h = h
add_nodes-IsMap (x ∷ hs) nodes h =
    add_nodes-IsMap hs _ (Map.insert-IsMap x.hook.id (node_of x) nodes h)

keys-add_edges :
    (id : String) (ds : List String) (nodes : Nodes) (edges : List DependencyEdge)
    → Map.keys (add_edges id ds nodes edges).0 ≡ Map.keys nodes
unfolding add_edges
keys-add_edges id [] nodes edges = refl
keys-add_edges id (d ∷ ds) nodes edges =
    keys-add_edges id ds _ _
    ∙ if_ind (λ (t : Nodes). Map.keys t ≡ Map.keys nodes) (Map.contains_key d nodes)
        (λ _. modify-keys (add_dependent id) d nodes) (λ _. refl)

pub keys-add_all_edges :
    (hs : List ChainedHook) (nodes : Nodes) (edges : List DependencyEdge)
    → Map.keys (add_all_edges hs nodes edges).0 ≡ Map.keys nodes
unfolding add_all_edges
keys-add_all_edges [] nodes edges = refl
keys-add_all_edges (h ∷ hs) nodes edges =
    keys-add_all_edges hs _ _ ∙ keys-add_edges h.hook.id h.dependencies nodes edges

pub added-IsMap :
    (hooks : List ChainedHook) → Map.IsMap (add_all_edges hooks (add_nodes hooks []) []).0
added-IsMap hooks k =
    rw (keys-add_all_edges hooks (add_nodes hooks []) [])
      (add_nodes-IsMap hooks [] (λ j. omega arith) k)

-- `build_graph` changes its nodes no more than in their levels, once the edges are there.
pub build_graph-IsShape :
    (hooks : List ChainedHook)
    → IsShape (build_graph hooks).nodes (add_all_edges hooks (add_nodes hooks []) []).0
unfolding build_graph calculate_execution_levels
build_graph-IsShape hooks =
    let g = unleveled (add_all_edges hooks (add_nodes hooks []) []) in
    write_levels-IsShape g _ (levels-Outcome g (added-IsMap hooks))

-- The levels in terms of the graph's own nodes.
pub build_graph-IsLeveled : (hooks : List ChainedHook) → IsLeveled (build_graph hooks)
unfolding build_graph
build_graph-IsLeveled hooks = calculate_execution_levels-IsLeveled _ (added-IsMap hooks) refl
