-- ===== src/Concurrency/Tasks/Tests.antt =====
-- Two tasks in the registry of src/concurrency.rs.
use snp.Prelude.{
  ◌≡◌, ◌⊎◌, refl, true, false, [], ◌∷◌, none, Option, some, Result, String, string_eq, ◌==◌, ok,
  err,
}
use snp.Prelude.Map
use snp.Concurrency.Tasks.{
  TaskState, running, completed, cancelled, cpu_exceeded, already_completed, already_failed,
  TaskResult, ResourceLimits, ResourceRequirements, TaskRegistry, acquire_resources, resource_guard,
  execute_task, cancel_task, cancel_all_tasks,
}
use snp.Concurrency.Tasks.States.{
  stopped, stopped_at, told, cancel_all_tasks-get, cancel_task_cases, execute_task_settled,
  execute_task_refused,
}

abbrev registry : TaskRegistry
registry = ("build", running 3) ∷ ("lint", completed 5 0) ∷ []

abbrev limits : ResourceLimits
limits = record { max_cpu_percent = 8_000; max_memory_mb = 4_096 }

abbrev nothing : ResourceRequirements
nothing = record { cpu_cores = none; memory_mb = none }

abbrev eight_cores : ResourceRequirements
eight_cores = record { cpu_cores = some 800; memory_mb = none }

abbrev fine : Option (Result String String)
fine = some (ok "fine")

abbrev tested : TaskResult String
tested = record { task_id = "test"; result = ok "fine"; duration = 4; retry_count = 0 }

tested_ok :
    (execute_task "test" 10 14 limits ("build" ∷ []) nothing true fine registry).1 ≡ ok tested
unfolding execute_task resource_guard
tested_ok = refl

refused : resource_guard limits eight_cores ≡ err cpu_exceeded
unfolding resource_guard acquire_resources
refused = refl

cancel_all_tasks-get_case :
    Map.get "build" (cancel_all_tasks registry) ≡ stopped_at (Map.get "build" registry)
cancel_all_tasks-get_case = cancel_all_tasks-get registry "build"

cancel_task_cases_case :
    (((cancel_task "lint" registry).1 ≡ ok tt)
      × ((Map.get "lint" (cancel_task "lint" registry).0 ≡ none)
          ⊎ (Map.get "lint" (cancel_task "lint" registry).0 ≡ some cancelled))
      × ((j : String)
          → ("lint" == j) ≡ false
          → Map.get j (cancel_task "lint" registry).0 ≡ Map.get j registry))
    ⊎ (((cancel_task "lint" registry).0 ≡ registry)
        × ((s : TaskState) × (Map.get "lint" registry ≡ some s) × (stopped s ≡ s))
        × (((cancel_task "lint" registry).1 ≡ err (already_completed "lint"))
            ⊎ ((cancel_task "lint" registry).1 ≡ err (already_failed "lint"))))
cancel_task_cases_case = cancel_task_cases "lint" registry

execute_task_settled_case :
    Map.get "test" (execute_task "test" 10 14 limits ("build" ∷ []) nothing true fine registry).0
    ≡ some (told 4 tested.result)
execute_task_settled_case =
    execute_task_settled "test" 10 14 limits ("build" ∷ []) nothing true fine registry tested
      tested_ok

execute_task_refused_case :
    ((execute_task "test" 10 14 limits [] eight_cores true fine registry).1 ≡ err cpu_exceeded)
    × (Map.get "test" (execute_task "test" 10 14 limits [] eight_cores true fine registry).0
        ≡ some (running 10))
execute_task_refused_case =
    execute_task_refused "test" 10 14 limits [] eight_cores fine registry cpu_exceeded refused
