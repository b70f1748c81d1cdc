-- ===== src/Execution/Order.antt =====
-- `resolve_hook_dependencies` and `execute_hooks` of src/execution.rs. The parallel run is a
-- parameter.
pub mod Sorted
pub mod Trace
mod Tests
use snp.Prelude.{
  Bool, true, false, not, ◌&&◌, List, [], ◌∷◌, ◌++◌, map, Option, none, some, String, ◌==◌,
  string_eq, if◌then◌else◌, any, find, is_empty, length, ltb, Result, ok, err, ◌>>=◌,
}
use snp.Core.Hook.{Hook}
use snp.Concurrency.Graph
use snp.Concurrency.Graph.{GraphError, TaskDependencyGraph}
use snp.Execution.Outcome.{ExecutionResult}
use snp.Execution.Sequential.{ExecutionConfig, Runner, execute_hooks_sequential}

unfoldable pub has_dependencies : List Hook → Bool
has_dependencies hooks = any (λ h. not (is_empty h.depends_on)) hooks

-- The loop that adds each hook as a task.
unfoldable pub add_tasks :
    List Hook → TaskDependencyGraph (Unit {0}) → TaskDependencyGraph (Unit {0})
add_tasks [] g = g
add_tasks (h ∷ hs) g = add_tasks hs (Graph.add_task (record { id = h.id; rest = tt }) g)

-- The loop over the dependencies of one hook, with `?`.
unfoldable pub add_dependencies :
    String
    → List String
    → TaskDependencyGraph (Unit {0})
    → Result GraphError (TaskDependencyGraph (Unit {0}))
add_dependencies id [] g = ok g
add_dependencies id (d ∷ ds) g =
    let (g', r) = Graph.add_dependency id d g in do _ ← r; add_dependencies id ds g'

unfoldable pub add_all_dependencies :
    List Hook → TaskDependencyGraph (Unit {0}) → Result GraphError (TaskDependencyGraph (Unit {0}))
add_all_dependencies [] g = ok g
add_all_dependencies (h ∷ hs) g = do
  g' ← add_dependencies h.id h.depends_on g
  add_all_dependencies hs g'

-- The hooks in the order of the ids; an id of no hook is passed over.
unfoldable pub pick : List Hook → List String → List Hook
pick hooks [] = []
pick hooks (id ∷ ids) =
    let rest = pick hooks ids in
    elim (find (λ h. h.id == id) hooks) [ none ↦ rest | some h ↦ h ∷ rest ]

unfoldable pub resolve_hook_dependencies : List Hook → Result GraphError (List Hook)
resolve_hook_dependencies hooks = if not (has_dependencies hooks) then ok hooks else (do
  g ← add_all_dependencies hooks (add_tasks hooks Graph.new)
  _ ← Graph.detect_cycles g
  order ← Graph.resolve_execution_order g
  ok (pick hooks order))

-- The test of `execute_hooks` for the parallel run.
unfoldable pub use_parallel : ExecutionConfig → List Hook → Bool
use_parallel config hooks =
    ltb 1 config.max_parallel_hooks
    && (ltb 1 (length hooks)
        && (not config.fail_fast
            && (not (has_dependencies hooks) && not (any (λ h. not h.concurrent) hooks))))

module _ {S Code Failure Fault : Type 0} (runner : Runner S Code Failure Fault)
    (parallel : ExecutionConfig → List Hook → S → S × ExecutionResult Code Failure) where
  unfoldable pub execute_hooks :
      ExecutionConfig → List Hook → S → Result GraphError (S × ExecutionResult Code Failure)
  unfolding use_parallel
  execute_hooks config hooks s = do
    ordered ← resolve_hook_dependencies hooks
    ok (
        if use_parallel config hooks
        then parallel config ordered s
        else execute_hooks_sequential runner config ordered s)
