-- ===== src/Concurrency/Graph.antt =====
-- `TaskDependencyGraph` of src/concurrency.rs. The `HashMap`s are association lists in their
-- iteration order, and the fields of a task's configuration other than its id are a parameter.
pub mod Pending
pub mod Drain
pub mod Link
pub mod Resolve
pub mod Build
pub mod Undo
pub mod Fuel
pub mod Cycles
mod Tests
use snp.Prelude.{
  ℕ, zero, suc, ◌+◌, ◌≡◌, Bool, true, false, not, List, [], ◌∷◌, ◌++◌, map, Option, none, some,
  String, ◌==◌, nat_eq, string_eq, if◌then◌else◌, length, is_empty, retain, Result, ok, err, ◌>>=◌,
  ◌>>◌,
}
use snp.Prelude.Map

-- What `SnpError` tells of a failure. `panicked` stands for an `unwrap` on `None` and a `usize`
-- below zero; `out_of_fuel` is the model's own.
pub data GraphError : Type 0 where
  unknown_task unknown_dependency : String → GraphError
  invalid_dependency : (dependent dependency : String) → GraphError
  circular_order : GraphError
  circular_path : (task dependency : String) → GraphError
  panicked out_of_fuel : GraphError

pub record TaskConfig (R : Type 0) : Type 0 where
  pub id : String
  pub rest : R

pub record TaskDependencyGraph (R : Type 0) : Type 0 where
  pub tasks : List (String × TaskConfig R)
  pub edges : List (String × List String)

abbrev pub Degrees : Type 0
Degrees = List (String × ℕ)

abbrev pub Adjacency : Type 0
Adjacency = List (String × List String)

-- `HashMap::get(..)` of a list, or the empty list: both loops over such a list skip a missing key.
abbrev pub list_at : String → Adjacency → List String
list_at k m = elim (Map.get k m) [ none ↦ [] | some l ↦ l ]

abbrev pub flag_at : String → List (String × Bool) → Bool
flag_at k m = elim (Map.get k m) [ none ↦ false | some b ↦ b ]

-- The tasks of in-degree zero.
unfoldable pub sources : Degrees → List String
sources [] = []
sources ((t, n) ∷ degrees) = let rest = sources degrees in if n == 0 then t ∷ rest else rest

-- The inner loop over the dependents of a task: the queue and the degrees after it.
unfoldable pub release :
    List String → List String → Degrees → Result GraphError (List String × Degrees)
release [] queue degrees = ok (queue, degrees)
release (t ∷ ts) queue degrees = elim (Map.get t degrees) [
  | none ↦ err panicked
  | some zero ↦ err panicked
  | some (suc n) ↦ release ts (if n == 0 then queue ++ t ∷ [] else queue) (Map.insert t n degrees)
]

-- The `while let` loop over the queue, on fuel.
unfoldable pub drain :
    ℕ → Adjacency → List String → Degrees → List String → Result GraphError (List String)
drain fuel adjacency [] degrees result = ok result
drain zero adjacency (t ∷ queue) degrees result = err out_of_fuel
drain (suc fuel) adjacency (t ∷ queue) degrees result = do
  (queue', degrees') ← release (list_at t adjacency) queue degrees
  drain fuel adjacency queue' degrees' (result ++ t ∷ [])

abbrev pub Marks : Type 0
Marks = List (String × Bool)

-- The loop of `dfs_cycle_check` over the dependencies of `task`; `check` is the recursive call.
unfoldable pub visit :
    (String → Marks → Marks → Result GraphError (Marks × Marks))
    → String
    → List String
    → Marks
    → Marks
    → Result GraphError (Marks × Marks)
visit check task [] visited stack = ok (visited, stack)
visit check task (d ∷ ds) visited stack = elim (flag_at d visited) [
  | false ↦ do (visited', stack') ← check d visited stack; visit check task ds visited' stack'
  | true ↦ elim (flag_at d stack) [
    | true ↦ err (circular_path task d)
    | false ↦ visit check task ds visited stack
  ]
]

-- `dfs_cycle_check`, on fuel.
unfoldable pub dfs_cycle_check :
    List (String × List String) → ℕ → String → Marks → Marks → Result GraphError (Marks × Marks)
dfs_cycle_check edges zero task visited stack = err out_of_fuel
dfs_cycle_check edges (suc fuel) task visited stack = do
  (visited', stack') ←
      visit (dfs_cycle_check edges fuel) task (list_at task edges) (Map.insert task true visited)
        (Map.insert task true stack)
  ok (visited', Map.insert task false stack')

-- The loop of `detect_cycles` over the tasks.
unfoldable pub check_all :
    List (String × List String) → ℕ → List String → Marks → Marks → Result GraphError (Unit {0})
check_all edges fuel [] visited stack = ok tt
check_all edges fuel (t ∷ ts) visited stack = elim (flag_at t visited) [
  | true ↦ check_all edges fuel ts visited stack
  | false ↦ do
    (visited', stack') ← dfs_cycle_check edges fuel t visited stack
    check_all edges fuel ts visited' stack'
]

-- All names that stand in the edges' lists.
unfoldable pub dependencies : List (String × List String) → List String
dependencies [] = []
dependencies ((k, ds) ∷ es) = ds ++ dependencies es

-- The edges without the dependency that closed a cycle.
unfoldable pub undo : String → String → List (String × List String) → List (String × List String)
undo task depends_on edges = elim (Map.get task edges) [
  | none ↦ edges
  | some deps ↦
      let kept = retain (λ d. not (d == depends_on)) deps in
      if is_empty kept then Map.remove task edges else Map.insert task kept edges
]

module _ {R : Type 0} where
  unfoldable pub new : TaskDependencyGraph R
  new = record { tasks = []; edges = [] }

  unfoldable pub add_task : TaskConfig R → TaskDependencyGraph R → TaskDependencyGraph R
  add_task config g = record g { tasks = Map.insert config.id config g.tasks }

  -- The loop over the dependencies of one task.
  unfoldable pub link :
      TaskDependencyGraph R
      → String
      → List String
      → Adjacency
      → Degrees
      → Result GraphError (Adjacency × Degrees)
  link g dependent [] adjacency degrees = ok (adjacency, degrees)
  link g dependent (d ∷ ds) adjacency degrees =
      let linked : Result GraphError (Adjacency × Degrees) = elim (Map.get d adjacency) [
        | none ↦ err panicked
        | some dependents ↦ elim (Map.get dependent degrees) [
          | none ↦ err panicked
          | some n ↦
              link g dependent ds (Map.insert d (dependents ++ dependent ∷ []) adjacency)
                (Map.insert dependent (n + 1) degrees)
        ]
      ] in
      if Map.contains_key d g.tasks then linked else err (invalid_dependency dependent d)

  -- The loop over the edges.
  unfoldable pub link_all :
      TaskDependencyGraph R
      → List (String × List String)
      → Adjacency
      → Degrees
      → Result GraphError (Adjacency × Degrees)
  link_all g [] adjacency degrees = ok (adjacency, degrees)
  link_all g ((t, ds) ∷ es) adjacency degrees = do
    (adjacency', degrees') ← link g t ds adjacency degrees
    link_all g es adjacency' degrees'

  unfoldable pub resolve_execution_order : TaskDependencyGraph R → Result GraphError (List String)
  resolve_execution_order g = do
    (adjacency, degrees) ←
        link_all g g.edges (map (λ t. (t.0, [])) g.tasks) (map (λ t. (t.0, 0)) g.tasks)
    result ← drain (length g.tasks) adjacency (sources degrees) degrees []
    if length result == length g.tasks then ok result else err circular_order

  -- A call is made for a name that is not visited, so one for each name and one more suffice.
  unfoldable pub detect_cycles : TaskDependencyGraph R → Result GraphError (Unit {0})
  detect_cycles g =
      check_all g.edges (suc (length (Map.keys g.tasks ++ dependencies g.edges))) (Map.keys g.tasks)
        (map (λ t. (t.0, false)) g.tasks) (map (λ t. (t.0, false)) g.tasks)

  -- `entry(task).or_default().push(depends_on)`.
  unfoldable pub push_edge : String → String → TaskDependencyGraph R → TaskDependencyGraph R
  push_edge task depends_on g = record g {
    edges = Map.insert task (list_at task g.edges ++ depends_on ∷ []) g.edges;
  }

  -- The graph after the call, and its result.
  unfoldable pub add_dependency :
      String → String → TaskDependencyGraph R → TaskDependencyGraph R × Result GraphError (Unit {0})
  add_dependency task depends_on g =
      if not (Map.contains_key task g.tasks)
      then (g, err (unknown_task task))
      else if not (Map.contains_key depends_on g.tasks)
      then (g, err (unknown_dependency depends_on))
      else (let g' = push_edge task depends_on g in
          elim (detect_cycles g') [
            | ok _ ↦ (g', ok tt)
            | err x ↦ (record g' { edges = undo task depends_on g'.edges }, err x)
          ])
