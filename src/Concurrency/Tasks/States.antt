-- ===== src/Concurrency/Tasks/States.antt =====
-- What the calls of src/concurrency.rs make of the states of the tasks.
use snp.Prelude.{
  ℕ, ◌-◌, ◌≡◌, ◌∙◌, refl, Bool, true, false, List, [], ◌∷◌, Option, none, some, String, string_eq,
  ◌==◌, ==_iff, ==_refl, if◌then◌else◌, contains, Option-cases, Bool-cases, ◌⊎◌, inl, inr, Result,
  ok, err, arith,
}
use snp.Prelude.Map
use snp.Concurrency.Tasks.{
  TaskState, running, completed, failed, cancelled, TaskError, already_completed, already_failed,
  TaskResult, ResourceLimits, ResourceRequirements, TaskRegistry, resource_guard, run, finish,
  execute_task, cancel_in, cancel_task, cancel_live, cancel_each, cancel_all_tasks,
}

-- The state in which a task is left when everything is cancelled.
abbrev pub stopped : TaskState → TaskState
stopped (completed d n) = completed d n
stopped (failed e n) = failed e n
stopped _ = cancelled

abbrev pub stopped_at : Option TaskState → Option TaskState
stopped_at none = none
stopped_at (some s) = some (stopped s)

stopped_again : (o : Option TaskState) → stopped_at (stopped_at o) ≡ stopped_at o
stopped_again none = refl
stopped_again (some (completed d n)) = refl
stopped_again (some _) = refl

cancel_live-get :
    (id j : String) (s : TaskState) (registry : TaskRegistry)
    → Map.get id registry ≡ some s
    → Map.get j (cancel_live id s registry)
      ≡ (if id == j then stopped_at (Map.get j registry) else Map.get j registry)
cancel_live-get id j (completed d n) registry e = ground (arith, ==_iff id j)
cancel_live-get id j (failed x n) registry e = ground (arith, ==_iff id j)
cancel_live-get id j cancelled registry e = ground (arith, ==_iff id j)
cancel_live-get id j _ registry e =
    ground (arith, ==_iff id j, Map.get-insert id j cancelled registry)

cancel_each-get :
    (ids : List String) (j : String) (registry : TaskRegistry)
    → Map.get j (cancel_each ids registry)
      ≡ (if contains ids j then stopped_at (Map.get j registry) else Map.get j registry)
unfolding cancel_each
cancel_each-get [] j registry = refl
cancel_each-get (id ∷ ids) j registry = elim (Option-cases (Map.get id registry)) [
  | inl absent ↦
      rw (absent, cancel_each)
        (cancel_each-get ids j registry ∙ ground (arith, absent, ==_iff id j))
  | inr (s, e) ↦
      rw (e, cancel_each)
        (cancel_each-get ids j (cancel_live id s registry)
          ∙ ground (arith, cancel_live-get id j s registry e, stopped_again (Map.get j registry)))
]

-- After `cancel_all_tasks` every task is as it was if it had completed or failed, and cancelled
-- otherwise; no task is added or lost.
pub cancel_all_tasks-get :
    (registry : TaskRegistry) (id : String)
    → Map.get id (cancel_all_tasks registry) ≡ stopped_at (Map.get id registry)
unfolding cancel_all_tasks
cancel_all_tasks-get registry id = elim (Bool-cases (contains (Map.keys registry) id)) [
  | inl known ↦ cancel_each-get (Map.keys registry) id registry ∙ rw known refl
  | inr unknown ↦
      let e = Map.get_of_absent id registry unknown in
      cancel_each-get (Map.keys registry) id registry ∙ rw (unknown, e) refl
]

cancel_in_cases :
    (id : String) (s : TaskState) (registry : TaskRegistry)
    → Map.get id registry ≡ some s
    → let r = cancel_in id s registry in
      ((r.1 ≡ ok tt)
        × (Map.get id r.0 ≡ some cancelled)
        × ((j : String) → (id == j) ≡ false → Map.get j r.0 ≡ Map.get j registry))
      ⊎ ((r.0 ≡ registry)
          × (stopped s ≡ s)
          × ((r.1 ≡ err (already_completed id)) ⊎ (r.1 ≡ err (already_failed id))))
cancel_in_cases id (completed d n) registry e = inr (refl, refl, inl refl)
cancel_in_cases id (failed x n) registry e = inr (refl, refl, inr refl)
cancel_in_cases id cancelled registry e = inl (refl, e, λ j other. refl)
cancel_in_cases id _ registry e = inl (
  refl,
  ground (arith, ==_refl id, Map.get-insert id id cancelled registry),
  λ j other. ground (arith, Map.get-insert id j cancelled registry),
)

cancel_task_of :
    (id : String) (registry : TaskRegistry) (s : TaskState)
    → Map.get id registry ≡ some s
    → cancel_task id registry ≡ cancel_in id s registry
unfolding cancel_task
cancel_task_of id registry s e = rw (e, cancel_task) refl

cancel_task_of_absent :
    (id : String) (registry : TaskRegistry)
    → Map.get id registry ≡ none
    → cancel_task id registry ≡ (registry, ok tt)
unfolding cancel_task
cancel_task_of_absent id registry e = rw (e, cancel_task) refl

-- `cancel_task` succeeds unless the task has completed or failed: then it is cancelled, or it is
-- not registered, and no other task changes. If it fails, nothing changes.
pub cancel_task_cases :
    (id : String) (registry : TaskRegistry)
    → (((cancel_task id registry).1 ≡ ok tt)
        × ((Map.get id (cancel_task id registry).0 ≡ none)
            ⊎ (Map.get id (cancel_task id registry).0 ≡ some cancelled))
        × ((j : String)
            → (id == j) ≡ false
            → Map.get j (cancel_task id registry).0 ≡ Map.get j registry))
      ⊎ (((cancel_task id registry).0 ≡ registry)
          × ((s : TaskState) × (Map.get id registry ≡ some s) × (stopped s ≡ s))
          × (((cancel_task id registry).1 ≡ err (already_completed id))
              ⊎ ((cancel_task id registry).1 ≡ err (already_failed id))))
cancel_task_cases id registry = elim (Option-cases (Map.get id registry)) [
  | inl absent ↦
      rw (cancel_task_of_absent id registry absent) (inl (refl, inl absent, λ j other. refl))
  | inr (s, e) ↦ elim (cancel_in_cases id s registry e) [
    | inl (won, now, others) ↦ rw (cancel_task_of id registry s e) (inl (won, inr now, others))
    | inr (same, final, why) ↦ rw (cancel_task_of id registry s e) (inr (same, (s, e, final), why))
  ]
]

-- The state that tells of a result.
abbrev pub told : {T : Type 0} → ℕ → Result String T → TaskState
told duration (ok t) = completed duration 0
told duration (err e) = failed e 0

kept :
    (id : String) (s : TaskState) (registry : TaskRegistry)
    → Map.get id (Map.insert id s registry) ≡ some s
kept id s registry = ground (arith, ==_refl id, Map.get-insert id id s registry)

module _ {T : Type 0} (id : String) (started_at completed_at : ℕ) where
  finish_settled :
      (execution : Option (Result String T)) (registry : TaskRegistry) (x : TaskResult T)
      → (finish id started_at completed_at execution registry).1 ≡ ok x
      → Map.get id (finish id started_at completed_at execution registry).0
        ≡ some (told x.duration x.result)
  finish_settled none registry x h = absurd (cc)
  finish_settled (some (ok t)) registry x h =
      let q : x ≡ record {
        task_id = id;
        result = ok t;
        duration = completed_at - started_at;
        retry_count = 0;
      } =
        cc in
      rw q (kept id (completed (completed_at - started_at) 0) registry)
  finish_settled (some (err e)) registry x h =
      let q : x ≡ record {
        task_id = id;
        result = err e;
        duration = completed_at - started_at;
        retry_count = 0;
      } =
        cc in
      rw q (kept id (failed e 0) registry)

  run_settled :
      (guard : Result TaskError (Unit {0})) (execution : Option (Result String T))
      (registry : TaskRegistry) (x : TaskResult T)
      → (run id started_at completed_at guard execution registry).1 ≡ ok x
      → Map.get id (run id started_at completed_at guard execution registry).0
        ≡ some (told x.duration x.result)
  run_settled (err e) execution registry x h = absurd (cc)
  run_settled (ok u) execution registry x h =
      finish_settled execution (Map.insert id (running started_at) registry) x h

  -- When `execute_task` returns a result, the state of the task tells of it: it has completed in
  -- the result's time if the task returned a value, and failed with its error otherwise.
  pub execute_task_settled :
      (limits : ResourceLimits) (dependencies : List String) (requirements : ResourceRequirements)
      (permit : Bool) (execution : Option (Result String T)) (registry : TaskRegistry)
      (x : TaskResult T)
      → (execute_task id started_at completed_at limits dependencies requirements permit execution
          registry).1
        ≡ ok x
      → Map.get id
          (execute_task id started_at completed_at limits dependencies requirements permit execution
            registry).0
        ≡ some (told x.duration x.result)
  unfolding execute_task
  execute_task_settled limits dependencies requirements true execution registry x h =
      run_settled (resource_guard limits requirements) execution _ x h
  execute_task_settled limits dependencies requirements false execution registry x h = absurd (cc)

  -- A task that has a permit and whose resources are refused stays registered as running, although
  -- `execute_task` has returned the refusal.
  pub execute_task_refused :
      (limits : ResourceLimits) (dependencies : List String) (requirements : ResourceRequirements)
      (execution : Option (Result String T)) (registry : TaskRegistry) (e : TaskError)
      → resource_guard limits requirements ≡ err e
      → ((execute_task id started_at completed_at limits dependencies requirements true execution
            registry).1
          ≡ err e)
        × (Map.get id
              (execute_task id started_at completed_at limits dependencies requirements true
                execution registry).0
            ≡ some (running started_at))
  unfolding execute_task
  execute_task_refused limits dependencies requirements execution registry e refused =
      rw refused (refl, kept id (running started_at) _)
