-- ===== src/Concurrency/Tasks.antt =====
-- The task registry of `ConcurrencyExecutor` (src/concurrency.rs), one call at a time. What a call
-- meets outside is its argument: the clock, whether the semaphore grants a permit, and what the
-- task returns in time. Cores and CPU percents, which the program holds as floating-point numbers,
-- are written in hundredths.
pub mod States
mod Tests
use snp.Prelude.{
  ℕ, ◌+◌, ◌-◌, ◌*◌, Bool, true, false, ◌||◌, List, [], ◌∷◌, Option, none, some, String, string_eq,
  if◌then◌else◌, is_empty, ltb, Result, ok, err, ◌>>◌,
}
use snp.Prelude.Map

pub data TaskState : Type 0 where
  pending waiting_for_resources cancelled : TaskState
  waiting_for_dependencies : List String → TaskState
  running : (started_at : ℕ) → TaskState
  completed : (duration retry_count : ℕ) → TaskState
  failed : (error : String) (retry_count : ℕ) → TaskState

-- What `SnpError` tells of a failure.
pub data TaskError : Type 0 where
  semaphore_acquisition cpu_exceeded memory_exceeded timeout : TaskError
  already_completed already_failed : (task_id : String) → TaskError

pub record ResourceLimits : Type 0 where
  pub max_cpu_percent : ℕ
  pub max_memory_mb : ℕ

pub record ResourceRequirements : Type 0 where
  pub cpu_cores : Option ℕ
  pub memory_mb : Option ℕ

pub record TaskResult (T : Type 0) : Type 0 where
  pub task_id : String
  pub result : Result String T
  pub duration : ℕ
  pub retry_count : ℕ

abbrev pub TaskRegistry : Type 0
TaskRegistry = List (String × TaskState)

abbrev pub check_cpu : ResourceLimits → Option ℕ → Result TaskError (Unit {0})
check_cpu limits none = ok tt
check_cpu limits (some cores) =
    if ltb limits.max_cpu_percent (cores * 25) then err cpu_exceeded else ok tt

abbrev pub check_memory : ResourceLimits → Option ℕ → Result TaskError (Unit {0})
check_memory limits none = ok tt
check_memory limits (some mb) = if ltb limits.max_memory_mb mb then err memory_exceeded else ok tt

unfoldable pub acquire_resources :
    ResourceLimits → ResourceRequirements → Result TaskError (Unit {0})
acquire_resources limits r = do check_cpu limits r.cpu_cores; check_memory limits r.memory_mb

-- The tests before it: without cores and memory nothing is asked for.
unfoldable pub resource_guard : ResourceLimits → ResourceRequirements → Result TaskError (Unit {0})
unfolding acquire_resources
resource_guard limits r = elim r.cpu_cores [
  | some cores ↦ acquire_resources limits r
  | none ↦ elim r.memory_mb [ some mb ↦ acquire_resources limits r | none ↦ ok tt ]
]

module _ {T : Type 0} (id : String) (started_at completed_at : ℕ) where
  -- The end of `execute_task`; `none` is a timeout.
  abbrev pub finish :
      Option (Result String T) → TaskRegistry → TaskRegistry × Result TaskError (TaskResult T)
  finish none registry = (Map.insert id (failed "Task execution timeout" 0) registry, err timeout)
  finish (some (ok t)) registry = (
    Map.insert id (completed (completed_at - started_at) 0) registry,
    ok (record {
      task_id = id;
      result = ok t;
      duration = completed_at - started_at;
      retry_count = 0;
    }),
  )
  finish (some (err e)) registry = (
    Map.insert id (failed e 0) registry,
    ok (record {
      task_id = id;
      result = err e;
      duration = completed_at - started_at;
      retry_count = 0;
    }),
  )

  -- `execute_task` from the permit on, with the answer for the resources.
  abbrev pub run :
      Result TaskError (Unit {0})
      → Option (Result String T)
      → TaskRegistry
      → TaskRegistry × Result TaskError (TaskResult T)
  run (err e) execution registry = (Map.insert id (running started_at) registry, err e)
  run (ok u) execution registry = finish execution (Map.insert id (running started_at) registry)

  unfoldable pub execute_task :
      ResourceLimits
      → (dependencies : List String) → ResourceRequirements
      → (permit : Bool) → Option (Result String T)
      → TaskRegistry
      → TaskRegistry × Result TaskError (TaskResult T)
  execute_task limits dependencies requirements permit execution registry =
      let registry₁ = Map.insert id pending registry in
      let registry₂ : TaskRegistry =
        if is_empty dependencies
        then registry₁
        else Map.insert id (waiting_for_dependencies dependencies) registry₁ in
      if permit
      then run (resource_guard limits requirements) execution registry₂
      else (registry₂, err semaphore_acquisition)

-- `cancel_task` for a task in the state.
abbrev pub cancel_in :
    String → TaskState → TaskRegistry → TaskRegistry × Result TaskError (Unit {0})
cancel_in id (completed duration retry_count) registry = (registry, err (already_completed id))
cancel_in id (failed error retry_count) registry = (registry, err (already_failed id))
cancel_in id cancelled registry = (registry, ok tt)
cancel_in id _ registry = (Map.insert id cancelled registry, ok tt)

unfoldable pub cancel_task : String → TaskRegistry → TaskRegistry × Result TaskError (Unit {0})
cancel_task id registry = elim (Map.get id registry) [
  | none ↦ (registry, ok tt)
  | some s ↦ cancel_in id s registry
]

-- The loop's body in `cancel_all_tasks`, for a task in the state.
abbrev pub cancel_live : String → TaskState → TaskRegistry → TaskRegistry
cancel_live id (completed duration retry_count) registry = registry
cancel_live id (failed error retry_count) registry = registry
cancel_live id cancelled registry = registry
cancel_live id _ registry = Map.insert id cancelled registry

unfoldable pub cancel_each : List String → TaskRegistry → TaskRegistry
cancel_each [] registry = registry
cancel_each (id ∷ ids) registry =
    cancel_each ids
      (elim (Map.get id registry) [ none ↦ registry | some s ↦ cancel_live id s registry ])

unfoldable pub cancel_all_tasks : TaskRegistry → TaskRegistry
cancel_all_tasks registry = cancel_each (Map.keys registry) registry
