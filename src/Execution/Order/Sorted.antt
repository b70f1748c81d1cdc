-- ===== src/Execution/Order/Sorted.antt =====
-- The order in which src/execution.rs runs hooks that depend on one another.
use snp.Prelude.{
  ◌+◌, ◌≡◌, ◌<◌, refl, sym, subst, ◌∙◌, ap, true, List, [], ◌∷◌, ◌++◌, map, String, some, ◌==◌,
  ==_iff, ==_refl, string_eq, if◌then◌else◌, contains, count, count_of_contains, count_of_absent,
  find, ok, bind-ok, ◌>>=◌, Result-cases, arith, Bool-cases, inl, inr, ◌||◌,
}
use snp.Prelude.Map
use mathlib.Core.Path.{ap₂}
use snp.Core.Hook.{Hook}
use snp.Concurrency.Graph
use snp.Concurrency.Graph.{TaskDependencyGraph}
use snp.Concurrency.Graph.Pending.{edge_count}
use snp.Concurrency.Graph.Drain.{IsOrdered}
use snp.Concurrency.Graph.Resolve.{IsGraph, resolve_execution_order-IsOrderOf}
use snp.Concurrency.Graph.Build.{add_dependency-ok, add_task-IsGraph, new-IsGraph, contains-insert}
use snp.Execution.Order.{
  has_dependencies, add_tasks, add_dependencies, add_all_dependencies, pick,
  resolve_hook_dependencies,
}

abbrev G : Type 0
G = TaskDependencyGraph (Unit {0})

-- The dependencies that the hooks declare.
abbrev pub declared : List Hook → List (String × List String)
declared hooks = map (λ h. (h.id, h.depends_on)) hooks

abbrev pub ids : List Hook → List String
ids hooks = map (λ h. h.id) hooks

-- `g'` has the tasks of `g`, and the edges of `g` and `es`.
record Adds (g g' : G) (es : List (String × List String)) : Type 0 where
  pub well_formed : IsGraph g'
  pub tasks : g'.tasks ≡ g.tasks
  pub edges : (x y : String) → edge_count g'.edges x y ≡ edge_count g.edges x y + edge_count es x y

add_dependencies-Adds :
    (id : String) (ds : List String) (g : G) {g' : G}
    → IsGraph g
    → add_dependencies id ds g ≡ ok g'
    → Adds g g' ((id, ds) ∷ [])
unfolding add_dependencies edge_count
add_dependencies-Adds id [] g {g'} wf h =
    let q : g ≡ g' = ground arith in
    subst (λ k. Adds g k ((id, []) ∷ [])) q
      (record { well_formed = wf; tasks = refl; edges = λ x y. ground arith })
add_dependencies-Adds id (d ∷ ds) g {g'} wf h =
    elim (Result-cases (Graph.add_dependency id d g).1) [
      | inr (x, e) ↦ absurd (ground arith)
      | inl (u, e) ↦
          let (wf', tasks, edges) = add_dependency-ok id d g wf e in
          let ih =
            add_dependencies-Adds id ds (Graph.add_dependency id d g).0 {g' = g'} wf'
              (ground arith) in
          record {
            well_formed = ih.well_formed;
            tasks = ih.tasks ∙ tasks;
            edges = λ x y. ground (arith, ih.edges x y, edges x y);
          }
    ]

add_all_dependencies-Adds :
    (hooks : List Hook) (g : G) {g' : G}
    → IsGraph g
    → add_all_dependencies hooks g ≡ ok g'
    → Adds g g' (declared hooks)
unfolding add_all_dependencies edge_count
add_all_dependencies-Adds [] g {g'} wf h =
    let q : g ≡ g' = ground arith in
    subst (λ k. Adds g k []) q
      (record { well_formed = wf; tasks = refl; edges = λ x y. omega arith })
add_all_dependencies-Adds (hook ∷ hooks) g {g'} wf h =
    let (k, first, rest) =
      bind-ok (add_dependencies hook.id hook.depends_on g) (add_all_dependencies hooks) h in
    let one = add_dependencies-Adds hook.id hook.depends_on g wf first in
    let more = add_all_dependencies-Adds hooks k {g' = g'} one.well_formed rest in
    record {
      well_formed = more.well_formed;
      tasks = more.tasks ∙ one.tasks;
      edges = λ x y. ground (arith, one.edges x y, more.edges x y);
    }

add_tasks-IsGraph :
    (hooks : List Hook) (g : G)
    → IsGraph g
    → IsGraph (add_tasks hooks g)
      × ((add_tasks hooks g).edges ≡ g.edges)
      × ((id : String)
          → contains (Map.keys (add_tasks hooks g).tasks) id
            ≡ (contains (Map.keys g.tasks) id || contains (ids hooks) id))
unfolding add_tasks Graph.add_task
add_tasks-IsGraph [] g wf = (wf, refl, λ id. ground arith)
add_tasks-IsGraph (h ∷ hs) g wf =
    let config : Graph.TaskConfig (Unit {0}) = record { id = h.id; rest = tt } in
    let g' = Graph.add_task config g in
    let (wf', edges, has) = add_tasks-IsGraph hs g' (add_task-IsGraph config g wf) in
    (wf', edges, λ id. ground (arith, has id, contains-insert h.id id config g.tasks))

find-id :
    (hooks : List Hook) (id : String)
    → contains (ids hooks) id ≡ true
    → (h : Hook) × (find (λ k. k.id == id) hooks ≡ some h) × (h.id ≡ id)
find-id [] id m = absurd (cc)
find-id (k ∷ hooks) id m = elim (Bool-cases (k.id == id)) [
  | inl same ↦ (k, rw same, (==_iff k.id id).0 same)
  | inr other ↦ let (h, found, e) = find-id hooks id (ground arith) in (h, ground arith, e)
]

IsOrdered-same :
    (es es' : List (String × List String)) (seen xs : List String)
    → ((x y : String) → edge_count es' x y ≡ edge_count es x y)
    → IsOrdered es seen xs
    → IsOrdered es' seen xs
IsOrdered-same es es' seen [] same o = tt
IsOrdered-same es es' seen (x ∷ xs) same o =
    (λ d h. o.0 d (rw same at h), IsOrdered-same es es' (seen ++ x ∷ []) xs same o.1)

-- Each id of the order is the id of a hook, so that each brings the first such hook.
ids-pick :
    (hooks : List Hook) (order : List String)
    → ((id : String) → 0 < count id order → contains (ids hooks) id ≡ true)
    → ids (pick hooks order) ≡ order
unfolding pick
ids-pick hooks [] h = refl
ids-pick hooks (id ∷ order) h =
    let (hook, found, e) = find-id hooks id (h id (ground (arith, ==_refl id))) in
    let ih = ids-pick hooks order (λ j k. h j (ground arith)) in rw (found, pick) (ap₂ ◌∷◌ e ih)

-- If some hook has dependencies and the function succeeds, the hooks come back in an order in
-- which each stands behind every hook that it names in `depends_on`, and each id that a hook has
-- stands exactly once: of hooks that share an id, one is kept.
pub resolve_hook_dependencies-sorted :
    (hooks ordered : List Hook)
    → has_dependencies hooks ≡ true
    → resolve_hook_dependencies hooks ≡ ok ordered
    → IsOrdered (declared hooks) [] (ids ordered)
      × ((id : String) → count id (ids ordered) ≡ (if contains (ids hooks) id then 1 else 0))
unfolding resolve_hook_dependencies Graph.new edge_count
resolve_hook_dependencies-sorted hooks ordered some_deps h =
    let start = add_tasks hooks Graph.new in
    let (g, built, h₁) =
      bind-ok (add_all_dependencies hooks start)
        (λ g. do
          _ ← Graph.detect_cycles g
          order ← Graph.resolve_execution_order g
          ok (pick hooks order))
        (rw some_deps at h) in
    let (u, acyclic, h₂) =
      bind-ok (Graph.detect_cycles g)
        (λ _. do order ← Graph.resolve_execution_order g; ok (pick hooks order)) h₁ in
    let (order, sorted, h₃) =
      bind-ok (Graph.resolve_execution_order g) (λ order. ok (pick hooks order)) h₂ in
    let (wf, no_edges, has) = add_tasks-IsGraph hooks Graph.new new-IsGraph in
    let adds = add_all_dependencies-Adds hooks start {g' = g} wf built in
    let (same, ordered_ids) = resolve_execution_order-IsOrderOf g order adds.well_formed sorted in
    let once : (id : String) → count id order ≡ (if contains (ids hooks) id then 1 else 0) = λ id.
      let known : contains (Map.keys g.tasks) id ≡ contains (ids hooks) id =
        ap (λ (m : List (String × Graph.TaskConfig (Unit {0}))). contains (Map.keys m) id)
          adds.tasks
        ∙ (has id ∙ refl) in
      ground (
        arith,
        known,
        same id,
        adds.well_formed.distinct id,
        count_of_contains id (Map.keys g.tasks),
        count_of_absent id (Map.keys g.tasks),
      ) in
    let q : ids ordered ≡ order =
      ap ids (ground arith) ∙ ids-pick hooks order (λ id k. ground (arith, once id)) in
    rw q (
      IsOrdered-same g.edges (declared hooks) [] order
          (λ x y. sym (adds.edges x y ∙ rw no_edges (omega arith))) ordered_ids,
      once,
    )
