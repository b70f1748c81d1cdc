-- ===== src/Concurrency/Batch.antt =====
-- `execute_batch` of src/concurrency.rs. How the tasks share the threads, the semaphore and the
-- clock (`join_all` over `execute_task`) is a parameter that answers each task in its place.
pub mod Split
use snp.Prelude.{
  ℕ, Bool, true, false, leb, if◌then◌else◌, List, [], ◌∷◌, ◌++◌, Option, none, some, String, Result,
  ok, err, ◌≡◌,
}
use snp.Prelude.Stateful.{Stateful}
use snp.Concurrency.Tasks.{TaskResult}

pub data TaskPriority : Type 0 where
  low normal high critical : TaskPriority

-- The discriminant, by which priorities are compared.
abbrev pub rank : TaskPriority → ℕ
rank low = 0
rank normal = 1
rank high = 2
rank critical = 3

-- The fields of `TaskConfig` that a batch reads.
pub record TaskConfig : Type 0 where
  pub id : String
  pub priority : TaskPriority
  pub timeout : Option ℕ
  pub dependencies : List String

unfoldable pub new : String → TaskConfig
new id = record { id = id; priority = normal; timeout = none; dependencies = [] }

unfoldable pub with_priority : TaskPriority → TaskConfig → TaskConfig
with_priority priority config = record config { priority = priority }

unfoldable pub with_timeout : ℕ → TaskConfig → TaskConfig
with_timeout timeout config = record config { timeout = some timeout }

-- The lists of `BatchResult`; none is ever cancelled by a batch.
pub record BatchResult (T : Type 0) : Type 0 where
  pub successful : List (TaskResult T)
  pub failed : List (TaskResult T)
  pub cancelled : List String

abbrev pub Task : Type 0 → Type 0 → Type 0 → Type 0
Task S E T = TaskConfig × Stateful S E T

-- `sort_by` with the higher priority first; it is stable.
unfoldable pub insert_task : {S E T : Type 0} → Task S E T → List (Task S E T) → List (Task S E T)
insert_task task [] = task ∷ []
insert_task task (other ∷ tasks) =
    let rest = other ∷ insert_task task tasks in
    if leb (rank other.0.priority) (rank task.0.priority) then task ∷ other ∷ tasks else rest

unfoldable pub sort_tasks : {S E T : Type 0} → List (Task S E T) → List (Task S E T)
unfolding insert_task
sort_tasks [] = []
sort_tasks (task ∷ tasks) = insert_task task (sort_tasks tasks)

-- What `execute_task` may answer for a task: an error of its own, or a result under the task's id
-- whose value the task gave in some state of the run.
abbrev pub IsAnswer : {S E T F : Type 0} → Task S E T → Result F (TaskResult T) → Type 0
IsAnswer task (err e) = Unit {0}
IsAnswer {S} {T = T} task (ok r) =
    (r.task_id ≡ task.0.id)
    × ((value : T) → r.result ≡ ok value → (s s' : S) × (task.1 s ≡ (s', ok value)))

abbrev pub AreAnswers :
    {S E T F : Type 0} → List (Task S E T) → List (Result F (TaskResult T)) → Type 0
AreAnswers [] [] = Unit {0}
AreAnswers [] (r ∷ rs) = ⊥
AreAnswers (task ∷ tasks) [] = ⊥
AreAnswers (task ∷ tasks) (r ∷ rs) = IsAnswer task r × AreAnswers tasks rs

-- `F` is the error of `execute_task`; errors are reported by their texts.
pub record Pool (S E T F : Type 0) : Type 0 where
  pub join_all : List (Task S E T) → S → S × List (Result F (TaskResult T))
  pub to_string : F → String
  pub join_all-AreAnswers :
      (tasks : List (Task S E T)) (s : S) → AreAnswers tasks (join_all tasks s).1

module _ {S E T F : Type 0} (pool : Pool S E T F) where
  abbrev pub sort_result : TaskResult T → Result String T → BatchResult T → BatchResult T
  sort_result r (ok value) batch = record batch { successful = batch.successful ++ r ∷ [] }
  sort_result r (err e) batch = record batch { failed = batch.failed ++ r ∷ [] }

  -- The body of the loop over the answers.
  unfoldable pub add_answer : Result F (TaskResult T) → BatchResult T → BatchResult T
  add_answer (ok r) batch = sort_result r r.result batch
  add_answer (err e) batch = record batch {
    failed =
        batch.failed
        ++ record {
          task_id = "unknown";
          result = err (pool.to_string e);
          duration = 0;
          retry_count = 0;
        }
          ∷ [];
  }

  unfoldable pub add_answers : List (Result F (TaskResult T)) → BatchResult T → BatchResult T
  unfolding add_answer
  add_answers [] batch = batch
  add_answers (r ∷ rs) batch = add_answers rs (add_answer r batch)

  unfoldable pub execute_batch : List (Task S E T) → S → S × BatchResult T
  unfolding sort_tasks add_answers
  execute_batch tasks s =
      let (s', results) = pool.join_all (sort_tasks tasks) s in
      (s', add_answers results (record { successful = []; failed = []; cancelled = [] }))
