-- ===== src/Concurrency/Graph/Build.antt =====
-- What `add_task` and `add_dependency` of src/concurrency.rs make of a graph.
use snp.Prelude.{
  ◌+◌, ◌≡◌, refl, true, List, [], ◌∷◌, ◌++◌, String, ◌==◌, ==_iff, string_eq, if◌then◌else◌,
  contains, count, count-append, ok, arith, if_ind, ◌||◌,
}
use snp.Prelude.Map
use snp.Concurrency.Graph.{
  TaskConfig, TaskDependencyGraph, list_at, detect_cycles, push_edge, add_task, add_dependency, new,
}
use snp.Concurrency.Graph.Pending.{edge_count}
use snp.Concurrency.Graph.Link.{ks, OutOfTasks}
use snp.Concurrency.Graph.Resolve.{IsGraph}

edge_count-insert :
    (es : List (String × List String)) (t x y : String) (l : List String)
    → edge_count (Map.insert t l es) x y + (if t == x then count y (list_at t es) else 0)
      ≡ edge_count es x y + (if t == x then count y l else 0)
unfolding edge_count Map.insert Map.get
edge_count-insert [] t x y l = ground arith
edge_count-insert ((k, ds) ∷ es) t x y l = ground (arith, ==_iff k t, edge_count-insert es t x y l)

-- The new edge is counted, and no other.
edge_count-push :
    (es : List (String × List String)) (t d x y : String)
    → edge_count (Map.insert t (list_at t es ++ d ∷ []) es) x y
      ≡ edge_count es x y + (if t == x then (if d == y then 1 else 0) else 0)
edge_count-push es t d x y = ground (
  arith,
  edge_count-insert es t x y (list_at t es ++ d ∷ []),
  count-append y (list_at t es) (d ∷ []),
)

pub contains-insert :
    {V : Type 0} (k j : String) (v : V) (m : List (String × V))
    → contains (Map.keys (Map.insert k v m)) j ≡ (contains (Map.keys m) j || (k == j))
unfolding Map.insert
contains-insert k j v [] = ground arith
contains-insert k j v ((i, w) ∷ m) = ground (arith, ==_iff i k, ==_iff k i, contains-insert k j v m)

module _ {R : Type 0} where
  OutOfTasks-insert :
      (g : TaskDependencyGraph R) (es : List (String × List String)) (t : String) (l : List String)
      → contains (ks g) t ≡ true
      → OutOfTasks g es
      → OutOfTasks g (Map.insert t l es)
  unfolding Map.insert
  OutOfTasks-insert g [] t l h o = (h, tt)
  OutOfTasks-insert g ((k, ds) ∷ es) t l h o =
      if_ind (OutOfTasks g) (k == t) (λ _. (h, o.1)) (λ _. (o.0, OutOfTasks-insert g es t l h o.1))

  OutOfTasks-grow :
      (g g' : TaskDependencyGraph R) (es : List (String × List String))
      → ((k : String) → contains (ks g) k ≡ true → contains (ks g') k ≡ true)
      → OutOfTasks g es
      → OutOfTasks g' es
  OutOfTasks-grow g g' [] more o = tt
  OutOfTasks-grow g g' (e ∷ es) more o = (more e.0 o.0, OutOfTasks-grow g g' es more o.1)

  add_dependency-push_edge :
      (t d : String) (g : TaskDependencyGraph R)
      → (add_dependency t d g).1 ≡ ok tt
      → ((add_dependency t d g).0 ≡ push_edge t d g)
        × (contains (ks g) t ≡ true)
        × (contains (ks g) d ≡ true)
        × (detect_cycles (push_edge t d g) ≡ ok tt)
  unfolding add_dependency
  add_dependency-push_edge t d g h = ground arith

  pub push_edge-IsGraph :
      (t d : String) (g : TaskDependencyGraph R)
      → IsGraph g
      → contains (ks g) t ≡ true
      → IsGraph (push_edge t d g)
  unfolding push_edge
  push_edge-IsGraph t d g wf task = record {
    distinct = wf.distinct;
    out = OutOfTasks-insert g g.edges t (list_at t g.edges ++ d ∷ []) task wf.out;
  }

  -- On a well-formed graph a successful call adds the one edge, changes no task, and keeps the
  -- graph well formed.
  pub add_dependency-ok :
      (t d : String) (g : TaskDependencyGraph R)
      → IsGraph g
      → (add_dependency t d g).1 ≡ ok tt
      → IsGraph (add_dependency t d g).0
        × ((add_dependency t d g).0.tasks ≡ g.tasks)
        × ((x y : String)
            → edge_count (add_dependency t d g).0.edges x y
              ≡ edge_count g.edges x y + (if t == x then (if d == y then 1 else 0) else 0))
  unfolding push_edge
  add_dependency-ok t d g wf h =
      let (same, task, dependency, acyclic) = add_dependency-push_edge t d g h in
      rw same (push_edge-IsGraph t d g wf task, refl, edge_count-push g.edges t d)

  -- A new task keeps the graph well formed.
  pub add_task-IsGraph :
      (config : TaskConfig R) (g : TaskDependencyGraph R) → IsGraph g → IsGraph (add_task config g)
  unfolding add_task
  add_task-IsGraph config g wf = record {
    distinct = Map.insert-IsMap config.id config g.tasks wf.distinct;
    out =
        OutOfTasks-grow g (add_task config g) g.edges
          (λ k h. ground (arith, contains-insert config.id k config g.tasks)) wf.out;
  }

  pub new-IsGraph : IsGraph (new {R = R})
  unfolding new
  new-IsGraph = record { distinct = λ k. omega arith; out = tt }
