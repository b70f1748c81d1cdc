-- ===== src/Chaining/Planner.antt =====
-- `ExecutionPlanner` of src/hook_chaining.rs. Durations are in milliseconds and do not overflow; the
-- shares of a processor, which are floating-point numbers, are left out.
pub mod Paths
pub mod Total
use snp.Prelude.{
  ℕ, zero, suc, ◌+◌, ◌*◌, min, max, Bool, true, false, not, ◌&&◌, List, [], ◌∷◌, Option, none, some,
  String, string_eq, if◌then◌else◌, length, is_empty, ltb, nat_beq,
}
use snp.Prelude.Map
use snp.Prelude.Partial.{◌>>=◌}
use snp.Chaining.{ChainedHook, ExecutionStrategy}
use snp.Chaining.Resolver.{HookNode, Nodes, DependencyGraph}

pub data PhaseExecutionMode : Type 0 where
  sequential : PhaseExecutionMode
  parallel : (max_concurrency : ℕ) → PhaseExecutionMode
  pipeline : (stages : List (List String)) → PhaseExecutionMode

pub record ExecutionPhase : Type 0 where
  pub phase_number : ℕ
  pub hooks : List String
  pub execution_mode : PhaseExecutionMode
  pub estimated_duration : ℕ
  pub memory_mb : ℕ
  pub process_count : ℕ

pub record ExecutionPlan : Type 0 where
  pub execution_phases : List ExecutionPhase
  pub estimated_duration : ℕ
  pub max_parallelism : ℕ
  pub memory_requirement_mb : ℕ
  pub critical_path : List String

-- `ResourceConstraints::max_processes` of a new planner.
abbrev pub max_processes : ℕ
max_processes = 4

abbrev pub phase_mode : ExecutionStrategy → ℕ → PhaseExecutionMode
phase_mode ExecutionStrategy.sequential hooks = sequential
phase_mode ExecutionStrategy.max_parallel hooks =
    if ltb 1 hooks then parallel (min hooks max_processes) else sequential
phase_mode ExecutionStrategy.resource_optimized hooks = parallel 2
phase_mode ExecutionStrategy.time_optimized hooks =
    if ltb 1 hooks then parallel hooks else sequential

abbrev pub with_duration : Option HookNode → List ℕ → List ℕ
with_duration none ds = ds
with_duration (some n) ds = n.estimated_duration ∷ ds

unfoldable pub durations : Nodes → List String → List ℕ
durations nodes [] = []
durations nodes (id ∷ ids) = with_duration (Map.get id nodes) (durations nodes ids)

abbrev pub sum : List ℕ → ℕ
sum [] = 0
sum (d ∷ ds) = d + sum ds

-- `max().unwrap_or(default)`.
abbrev pub max_or : ℕ → List ℕ → ℕ
max_or default [] = default
max_or default (d ∷ []) = d
max_or default (d ∷ e ∷ ds) = max d (max_or default (e ∷ ds))

abbrev pub phase_duration : PhaseExecutionMode → List ℕ → ℕ
phase_duration sequential ds = sum ds
phase_duration (parallel _) ds = max_or 30_000 ds
phase_duration (pipeline _) ds = max_or 30_000 ds

unfoldable pub create_phase : ExecutionStrategy → Nodes → ℕ → List String → ExecutionPhase
create_phase strategy nodes phase_num level =
    let mode = phase_mode strategy (length level) in
    record {
      phase_number = phase_num;
      hooks = level;
      execution_mode = mode;
      estimated_duration = phase_duration mode (durations nodes level);
      memory_mb = length level * 64;
      process_count = length level;
    }

unfoldable pub create_phases :
    ExecutionStrategy → Nodes → ℕ → List (List String) → List ExecutionPhase
create_phases strategy nodes phase_num [] = []
create_phases strategy nodes phase_num (level ∷ levels) =
    create_phase strategy nodes phase_num level
    ∷ create_phases strategy nodes (phase_num + 1) levels

-- One more path with its duration, against the best so far.
abbrev pub longer : List String × ℕ → List String × ℕ → List String × ℕ
longer best p = if ltb best.1 p.1 then p else best

-- The loop over the hooks that a path may go on with; `none` is out of fuel.
abbrev pub longest :
    (String → Option (List String × ℕ)) → List String → List String × ℕ → Option (List String × ℕ)
longest trace [] best = some best
longest trace (id ∷ ids) best = do p ← trace id; longest trace ids (longer best p)

abbrev pub trace_node :
    (String → Option (List String × ℕ)) → String → Option HookNode → Option (List String × ℕ)
trace_node trace id none = some ([], 0)
trace_node trace id (some n) = do
  best ← longest trace n.dependents ([], 0)
  some (id ∷ best.0, n.estimated_duration + best.1)

unfoldable pub trace_longest_path : ℕ → Nodes → String → Option (List String × ℕ)
trace_longest_path zero nodes id = none
trace_longest_path (suc fuel) nodes id =
    trace_node (trace_longest_path fuel nodes) id (Map.get id nodes)

-- The hooks without dependencies.
unfoldable pub roots : Nodes → List String
roots [] = []
roots ((id, n) ∷ nodes) =
    let rest = roots nodes in if is_empty n.dependencies then id ∷ rest else rest

abbrev pub path_or_first : List String → Nodes → List String
path_or_first [] [] = []
path_or_first [] ((id, n) ∷ nodes) = id ∷ []
path_or_first (p ∷ ps) nodes = p ∷ ps

-- On a recursion no deeper than the hooks are many.
unfoldable pub find_critical_path : DependencyGraph → Option (List String)
find_critical_path g = do
  best ← longest (trace_longest_path (suc (length g.nodes)) g.nodes) (roots g.nodes) ([], 0)
  some (path_or_first best.0 g.nodes)

abbrev pub longest_stage : List (List String) → List ℕ
longest_stage [] = []
longest_stage (s ∷ ss) = length s ∷ longest_stage ss

abbrev pub mode_parallelism : PhaseExecutionMode → ℕ
mode_parallelism sequential = 1
mode_parallelism (parallel max_concurrency) = max_concurrency
mode_parallelism (pipeline stages) = max_or 1 (longest_stage stages)

abbrev pub parallelisms : List ExecutionPhase → List ℕ
parallelisms [] = []
parallelisms (p ∷ ps) = mode_parallelism p.execution_mode ∷ parallelisms ps

abbrev pub phase_durations : List ExecutionPhase → List ℕ
phase_durations [] = []
phase_durations (p ∷ ps) = p.estimated_duration ∷ phase_durations ps

abbrev pub is_sequential : ExecutionStrategy → Bool
is_sequential ExecutionStrategy.sequential = true
is_sequential _ = false

unfoldable pub max_parallelism_of : ExecutionStrategy → List ExecutionPhase → ℕ
max_parallelism_of strategy phases =
    let most = max_or 1 (parallelisms phases) in
    if not (is_sequential strategy) && nat_beq most 1 then 2 else most

abbrev pub plan_of :
    ExecutionStrategy → DependencyGraph → List ChainedHook → List String → ExecutionPlan
plan_of strategy g hooks critical_path =
    let phases = create_phases strategy g.nodes 0 g.execution_levels in
    record {
      execution_phases = phases;
      estimated_duration = sum (phase_durations phases);
      max_parallelism = max_parallelism_of strategy phases;
      memory_requirement_mb = length hooks * 64;
      critical_path = critical_path;
    }

unfoldable pub create_plan :
    ExecutionStrategy → DependencyGraph → List ChainedHook → Option ExecutionPlan
create_plan strategy g hooks = do
  critical_path ← find_critical_path g
  some (plan_of strategy g hooks critical_path)
