-- ===== src/Chaining/Resolver.antt =====
-- `DependencyResolver` of src/hook_chaining.rs. Its `HashMap`s are association lists in their
-- iteration order; the strongly connected components are those of the petgraph library, a
-- parameter.
pub mod Levels
pub mod Dependents
use snp.Prelude.{
  ℕ, zero, suc, ◌+◌, Bool, true, false, not, ◌&&◌, List, [], ◌∷◌, ◌++◌, Option, none, some, String,
  string_eq, ◌==◌, if◌then◌else◌, length, is_empty, contains, all, retain, ltb, Result, ok, err,
  ◌>>=◌, ◌>>◌,
}
use snp.Prelude.Map
use snp.Core.Hook.{Hook}
use snp.Chaining.{ChainedHook, FailureBehavior}

pub record HookNode : Type 0 where
  pub hook_id : String
  pub dependencies : List String
  pub dependents : List String
  pub level : ℕ
  pub is_critical : Bool
  pub estimated_duration : ℕ

pub data DependencyType : Type 0 where
  sequential conditional data_flow resource : DependencyType

pub record DependencyEdge : Type 0 where
  pub from : String
  pub to : String
  pub dependency_type : DependencyType
  pub is_optional : Bool

abbrev pub new_edge : String → String → DependencyEdge
new_edge from to = record {
  from = from;
  to = to;
  dependency_type = sequential;
  is_optional = false;
}

abbrev pub Nodes : Type 0
Nodes = List (String × HookNode)

pub record DependencyGraph : Type 0 where
  pub nodes : Nodes
  pub edges : List DependencyEdge
  pub execution_levels : List (List String)
  pub critical_path : List String

-- The errors that the modelled code makes; `out_of_fuel` and `panic` are the model's own.
pub data ChainError : Type 0 where
  missing_dependency : (hook_id missing : String) → ChainError
  circular_dependency : (cycle : List String) → ChainError
  dependency_graph_failed : (problematic_hooks : List String) → ChainError
  out_of_fuel panic : ChainError

abbrev pub is_critical_behavior : FailureBehavior → Bool
is_critical_behavior FailureBehavior.critical = true
is_critical_behavior _ = false

abbrev pub node_of : ChainedHook → HookNode
node_of h = record {
  hook_id = h.hook.id;
  dependencies = h.dependencies;
  dependents = [];
  level = 0;
  is_critical = is_critical_behavior h.failure_behavior;
  estimated_duration = 30_000;
}

-- The first loop of `build_graph`.
unfoldable pub add_nodes : List ChainedHook → Nodes → Nodes
add_nodes [] nodes = nodes
add_nodes (h ∷ hs) nodes = add_nodes hs (Map.insert h.hook.id (node_of h) nodes)

-- A change of one node through `get_mut`.
unfoldable pub modify : String → (HookNode → HookNode) → Nodes → Nodes
modify id f [] = []
modify id f ((k, n) ∷ nodes) =
    let rest = modify id f nodes in if k == id then (k, f n) ∷ nodes else (k, n) ∷ rest

abbrev pub add_dependent : String → HookNode → HookNode
add_dependent id n = record n { dependents = n.dependents ++ id ∷ [] }

-- The second loop of `build_graph`, over the dependencies of one hook.
unfoldable pub add_edges :
    String → List String → Nodes → List DependencyEdge → Nodes × List DependencyEdge
add_edges id [] nodes edges = (nodes, edges)
add_edges id (d ∷ ds) nodes edges =
    let known = Map.contains_key d nodes in
    add_edges id ds (if known then modify d (add_dependent id) nodes else nodes)
      (if known then edges ++ new_edge d id ∷ [] else edges)

unfoldable pub add_all_edges :
    List ChainedHook → Nodes → List DependencyEdge → Nodes × List DependencyEdge
add_all_edges [] nodes edges = (nodes, edges)
add_all_edges (h ∷ hs) nodes edges =
    let (nodes', edges') = add_edges h.hook.id h.dependencies nodes edges in
    add_all_edges hs nodes' edges'

-- The hooks of one round: not yet assigned, and all that they depend on is.
unfoldable pub ready : Nodes → List String → List String
ready [] assigned = []
ready ((id, n) ∷ nodes) assigned =
    let rest = ready nodes assigned in
    if not (contains assigned id) && all (contains assigned) n.dependencies then id ∷ rest else rest

unfoldable pub unassigned : List String → List String → List String
unassigned [] assigned = []
unassigned (id ∷ ids) assigned =
    let rest = unassigned ids assigned in if contains assigned id then rest else id ∷ rest

abbrev pub with_level : ℕ → HookNode → HookNode
with_level l n = record n { level = l }

unfoldable pub set_levels : ℕ → List String → Nodes → Nodes
set_levels l [] nodes = nodes
set_levels l (id ∷ ids) nodes = set_levels l ids (modify id (with_level l) nodes)

-- The `while` loop of `calculate_execution_levels`, on fuel: the nodes, and the levels or an error.
unfoldable pub assign_levels :
    ℕ
    → Nodes
    → (assigned : List String) (levels : List (List String)) (current : ℕ)
    → Nodes × Result ChainError (List (List String))
assign_levels zero nodes assigned levels current = (nodes, err out_of_fuel)
assign_levels (suc fuel) nodes assigned levels current =
    let hooks = ready nodes assigned in
    let rest : Nodes × Result ChainError (List (List String)) =
      if is_empty hooks
      then (nodes, err (dependency_graph_failed (unassigned (Map.keys nodes) assigned)))
      else assign_levels fuel (set_levels current hooks nodes) (assigned ++ hooks)
          (levels ++ hooks ∷ []) (current + 1) in
    if ltb (length assigned) (length nodes) then rest else (nodes, ok levels)

-- `execution_levels` is written after the loop only.
abbrev pub write_levels :
    DependencyGraph
    → Nodes × Result ChainError (List (List String))
    → DependencyGraph × Result ChainError (Unit {0})
write_levels g (nodes, ok levels) = (record g { nodes = nodes; execution_levels = levels }, ok tt)
write_levels g (nodes, err x) = (record g { nodes = nodes }, err x)

unfoldable pub calculate_execution_levels :
    DependencyGraph → DependencyGraph × Result ChainError (Unit {0})
calculate_execution_levels g = write_levels g (assign_levels (suc (length g.nodes)) g.nodes [] [] 0)

abbrev pub unleveled : Nodes × List DependencyEdge → DependencyGraph
unleveled (nodes, edges) = record {
  nodes = nodes;
  edges = edges;
  execution_levels = [];
  critical_path = [];
}

-- An error of the levels is passed over.
unfoldable pub build_graph : List ChainedHook → DependencyGraph
build_graph hooks =
    (calculate_execution_levels (unleveled (add_all_edges hooks (add_nodes hooks []) []))).0

-- The first loop of `validate_dependencies`, over the dependencies of one hook.
unfoldable pub check_known : Nodes → String → List String → Result ChainError (Unit {0})
check_known nodes id [] = ok tt
check_known nodes id (d ∷ ds) =
    let rest = check_known nodes id ds in
    if Map.contains_key d nodes then rest else err (missing_dependency id d)

unfoldable pub check_all_known : Nodes → Nodes → Result ChainError (Unit {0})
check_all_known nodes [] = ok tt
check_all_known nodes ((id, n) ∷ rest) = do
  check_known nodes id n.dependencies
  check_all_known nodes rest

-- The components of more than one hook.
unfoldable pub large : List (List String) → List (List String)
large [] = []
large (c ∷ cs) = let rest = large cs in if ltb 1 (length c) then c ∷ rest else rest

module _ (tarjan_scc : List String → List DependencyEdge → List (List String)) where
  unfoldable pub detect_cycles : DependencyGraph → List (List String)
  detect_cycles g = large (
      tarjan_scc (Map.keys g.nodes)
        (retain (λ e. Map.contains_key e.from g.nodes && Map.contains_key e.to g.nodes) g.edges))

  unfoldable pub validate_dependencies : DependencyGraph → Result ChainError (Unit {0})
  validate_dependencies g = do
    check_all_known g.nodes g.nodes
    elim (detect_cycles g) [ [] ↦ ok tt | c ∷ cs ↦ err (circular_dependency c) ]
