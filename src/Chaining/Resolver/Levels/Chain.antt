-- ===== src/Chaining/Resolver/Levels/Chain.antt =====
-- The levels that `build_graph` of src/hook_chaining.rs gives to the hooks of a chain, told by the
-- chain alone.
use snp.Prelude.{
  ◌≡◌, refl, sym, ap, ◌∙◌, arith, List, [], ◌∷◌, ◌++◌, String, string_eq, ◌==◌, true, if◌then◌else◌,
  ◌||◌, count, contains, count_of_contains, count_of_absent, all, map, ◌⊎◌, inl, inr, if_ind, ◌≤◌,
  ==_iff,
}
use snp.Prelude.Map
use snp.Chaining.{ChainedHook}
use snp.Chaining.Resolver.{
  Nodes, DependencyEdge, DependencyGraph, build_graph, add_nodes, node_of, add_dependent, add_edges,
  add_all_edges,
}
use snp.Chaining.Resolver.Levels.{
  flatten, deps_at, IsLayered, all_of_member, all_of_members, modify-deps_at,
}
use snp.Chaining.Resolver.Levels.Built.{
  build_graph-IsLeveled, build_graph-IsShape, added-IsMap, keys-add_all_edges,
}

abbrev pub ids : List ChainedHook → List String
ids hooks = map (λ h. h.hook.id) hooks

-- What the last hook with an id depends on; `before` where there is none.
abbrev declared_from : String → List String → List ChainedHook → List String
declared_from id before [] = before
declared_from id before (h ∷ hs) =
    declared_from id (if h.hook.id == id then h.dependencies else before) hs

abbrev pub declared : String → List ChainedHook → List String
declared id hooks = declared_from id [] hooks

-- Every hook stands in a later level than all that it declares to depend on.
abbrev pub IsOrdered : List ChainedHook → (seen : List String) → List (List String) → Type 0
IsOrdered hooks seen [] = Unit
IsOrdered hooks seen (l ∷ ls) =
    (all (λ id. all (contains seen) (declared id hooks)) l ≡ true) × IsOrdered hooks (seen ++ l) ls

-- Levels of a chain hold each of its hooks once, and nothing else.
abbrev pub AreLevels : List ChainedHook → List (List String) → Type 0
AreLevels hooks ls =
    IsOrdered hooks [] ls
    × ((id : String) → count id (flatten ls) ≡ (if contains (ids hooks) id then 1 else 0))

abbrev pub HasLevels : List ChainedHook → DependencyGraph → Type 0
HasLevels hooks g =
    AreLevels hooks g.execution_levels
    ⊎ ((g.execution_levels ≡ []) × ((ls : List (List String)) → ¬ AreLevels hooks ls))

deps_at-add_nodes :
    (id : String) (hs : List ChainedHook) (nodes : Nodes)
    → deps_at id (add_nodes hs nodes) ≡ declared_from id (deps_at id nodes) hs
unfolding add_nodes
deps_at-add_nodes id [] nodes = refl
deps_at-add_nodes id (h ∷ hs) nodes =
    let one : deps_at id (Map.insert h.hook.id (node_of h) nodes)
        ≡ (if h.hook.id == id then h.dependencies else deps_at id nodes) =
      ground (arith, Map.get-insert h.hook.id id (node_of h) nodes) in
    deps_at-add_nodes id hs (Map.insert h.hook.id (node_of h) nodes)
    ∙ ap (λ (ds : List String). declared_from id ds hs) one

contains-add_nodes :
    (id : String) (hs : List ChainedHook) (nodes : Nodes)
    → contains (Map.keys (add_nodes hs nodes)) id
      ≡ (contains (ids hs) id || contains (Map.keys nodes) id)
unfolding add_nodes
contains-add_nodes id [] nodes = refl
contains-add_nodes id (h ∷ hs) nodes =
    let m = Map.insert h.hook.id (node_of h) nodes in
    ground (
      arith,
      contains-add_nodes id hs m,
      Map.count-keys-insert h.hook.id id (node_of h) nodes,
      count_of_contains id (Map.keys m),
      count_of_absent id (Map.keys m),
      count_of_contains id (Map.keys nodes),
      count_of_absent id (Map.keys nodes),
      ==_iff h.hook.id id,
    )

deps_at-add_edges :
    (j id : String) (ds : List String) (nodes : Nodes) (edges : List DependencyEdge)
    → deps_at j (add_edges id ds nodes edges).0 ≡ deps_at j nodes
unfolding add_edges
deps_at-add_edges j id [] nodes edges = refl
deps_at-add_edges j id (d ∷ ds) nodes edges =
    deps_at-add_edges j id ds _ _
    ∙ if_ind (λ (t : Nodes). deps_at j t ≡ deps_at j nodes) (Map.contains_key d nodes)
        (λ _. modify-deps_at (add_dependent id) j d nodes (λ n. refl)) (λ _. refl)

deps_at-add_all_edges :
    (j : String) (hs : List ChainedHook) (nodes : Nodes) (edges : List DependencyEdge)
    → deps_at j (add_all_edges hs nodes edges).0 ≡ deps_at j nodes
unfolding add_all_edges
deps_at-add_all_edges j [] nodes edges = refl
deps_at-add_all_edges j (h ∷ hs) nodes edges =
    deps_at-add_all_edges j hs _ _ ∙ deps_at-add_edges j h.hook.id h.dependencies nodes edges

-- A node of the graph has the dependencies that its hook declares.
deps_at-build_graph :
    (id : String) (hooks : List ChainedHook)
    → deps_at id (build_graph hooks).nodes ≡ declared id hooks
unfolding Map.get
deps_at-build_graph id hooks =
    (build_graph-IsShape hooks).same_deps id
    ∙ (deps_at-add_all_edges id hooks (add_nodes hooks []) [] ∙ deps_at-add_nodes id hooks [])

-- The graph has one node for each id of the chain.
count-build_graph :
    (id : String) (hooks : List ChainedHook)
    → count id (Map.keys (build_graph hooks).nodes) ≡ (if contains (ids hooks) id then 1 else 0)
count-build_graph id hooks =
    let same : Map.keys (build_graph hooks).nodes ≡ Map.keys (add_nodes hooks []) =
      (build_graph-IsShape hooks).same_keys ∙ keys-add_all_edges hooks (add_nodes hooks []) [] in
    let once : count id (Map.keys (add_nodes hooks [])) ≤ 1 =
      rw (← keys-add_all_edges hooks (add_nodes hooks []) []) (added-IsMap hooks id) in
    ground (
      arith,
      same,
      once,
      contains-add_nodes id hooks [],
      count_of_contains id (Map.keys (add_nodes hooks [])),
      count_of_absent id (Map.keys (add_nodes hooks [])),
    )

IsOrdered-IsLayered :
    (hooks : List ChainedHook) (nodes : Nodes) (seen : List String) (ls : List (List String))
    → ((id : String) → deps_at id nodes ≡ declared id hooks)
    → IsOrdered hooks seen ls
    → IsLayered nodes seen ls
IsOrdered-IsLayered hooks nodes seen [] same h = tt
IsOrdered-IsLayered hooks nodes seen (l ∷ ls) same h = (
  all_of_members _ l (λ a m.
      rw (same a) (all_of_member (λ id. all (contains seen) (declared id hooks)) l a h.0 m)),
  IsOrdered-IsLayered hooks nodes (seen ++ l) ls same h.1,
)

IsLayered-IsOrdered :
    (hooks : List ChainedHook) (nodes : Nodes) (seen : List String) (ls : List (List String))
    → ((id : String) → deps_at id nodes ≡ declared id hooks)
    → IsLayered nodes seen ls
    → IsOrdered hooks seen ls
IsLayered-IsOrdered hooks nodes seen [] same h = tt
IsLayered-IsOrdered hooks nodes seen (l ∷ ls) same h = (
  all_of_members _ l (λ a m.
      rw (← same a) (all_of_member (λ id. all (contains seen) (deps_at id nodes)) l a h.0 m)),
  IsLayered-IsOrdered hooks nodes (seen ++ l) ls same h.1,
)

-- The graph of any chain has levels that hold each id of the chain once, and nothing else, and in
-- which a hook stands in a later level than all that it declares to depend on; or it has no levels at
-- all, and then no such levels exist. Of hooks with the same id the last one counts.
pub build_graph-HasLevels : (hooks : List ChainedHook) → HasLevels hooks (build_graph hooks)
build_graph-HasLevels hooks =
    let g = build_graph hooks in
    elim (build_graph-IsLeveled hooks) [
      | inl levels ↦ inl (
        IsLayered-IsOrdered hooks g.nodes [] g.execution_levels (λ id. deps_at-build_graph id hooks)
            levels.0,
        λ id. levels.1 id ∙ count-build_graph id hooks,
      )
      | inr (fresh, none_at_all) ↦ inr (
        fresh,
        λ ls are. none_at_all ls (
          IsOrdered-IsLayered hooks g.nodes [] ls (λ id. deps_at-build_graph id hooks) are.0,
          λ id. are.1 id ∙ sym (count-build_graph id hooks),
        ),
      )
    ]
