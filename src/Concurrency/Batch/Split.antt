-- ===== src/Concurrency/Batch/Split.antt =====
-- What a batch of src/concurrency.rs reports: each task once.
use snp.Prelude.{
  ℕ, suc, ◌+◌, ◌≡◌, refl, arith, leb, if_ind, List, [], ◌∷◌, ◌++◌, String, length, length-append,
  Result, ok, err, subst,
}
use snp.Concurrency.Tasks.{TaskResult}
use snp.Concurrency.Batch.{
  Task, Pool, BatchResult, rank, insert_task, sort_tasks, AreAnswers, sort_result, add_answer,
  add_answers, execute_batch,
}

module _ {S E T : Type 0} where
  length-insert_task :
      (task : Task S E T) (tasks : List (Task S E T))
      → length (insert_task task tasks) ≡ suc (length tasks)
  unfolding insert_task
  length-insert_task task [] = refl
  length-insert_task task (other ∷ tasks) =
      if_ind (λ (ts : List (Task S E T)). length ts ≡ suc (length (other ∷ tasks)))
        (leb (rank other.0.priority) (rank task.0.priority)) (λ _. refl)
        (λ _. omega (arith, length-insert_task task tasks))

  length-sort_tasks : (tasks : List (Task S E T)) → length (sort_tasks tasks) ≡ length tasks
  unfolding sort_tasks
  length-sort_tasks [] = refl
  length-sort_tasks (task ∷ tasks) =
      omega (arith, length-insert_task task (sort_tasks tasks), length-sort_tasks tasks)

  length_of_answers :
      {F : Type 0} (tasks : List (Task S E T)) (rs : List (Result F (TaskResult T)))
      → AreAnswers tasks rs
      → length rs ≡ length tasks
  length_of_answers [] [] h = refl
  length_of_answers [] (r ∷ rs) h = absurd h
  length_of_answers (task ∷ tasks) [] h = absurd h
  length_of_answers (task ∷ tasks) (r ∷ rs) h = omega (arith, length_of_answers tasks rs h.1)

-- Each task of a batch is in one list; the first has only results, the second only errors.
abbrev pub HaveValues : {T : Type 0} → List (TaskResult T) → Type 0
HaveValues [] = Unit {0}
HaveValues {T} (r ∷ rs) = ((value : T) × (r.result ≡ ok value)) × HaveValues rs

pub record IsSplit {T : Type 0} (n : ℕ) (batch : BatchResult T) : Type 0 where
  pub counted : length batch.successful + length batch.failed ≡ n
  pub values : HaveValues batch.successful

HaveValues_snoc :
    {T : Type 0} (rs : List (TaskResult T)) (r : TaskResult T) (value : T)
    → HaveValues rs
    → r.result ≡ ok value
    → HaveValues (rs ++ r ∷ [])
HaveValues_snoc [] r value h e = ((value, e), tt)
HaveValues_snoc (x ∷ rs) r value h e = (h.0, HaveValues_snoc rs r value h.1 e)

module _ {S E T F : Type 0} (pool : Pool S E T F) where
  sort_result-IsSplit :
      (n : ℕ) (batch : BatchResult T) (r : TaskResult T) (result : Result String T)
      → r.result ≡ result
      → IsSplit n batch
      → IsSplit (suc n) (sort_result pool r result batch)
  sort_result-IsSplit n batch r (ok value) e h = record {
    counted = omega (arith, h.counted, length-append {0} batch.successful (r ∷ []));
    values = HaveValues_snoc batch.successful r value h.values e;
  }
  sort_result-IsSplit n batch r (err x) e h = record {
    counted = omega (arith, h.counted, length-append {0} batch.failed (r ∷ []));
    values = h.values;
  }

  add_answer-IsSplit :
      (n : ℕ) (batch : BatchResult T) (r : Result F (TaskResult T))
      → IsSplit n batch
      → IsSplit (suc n) (add_answer pool r batch)
  unfolding add_answer
  add_answer-IsSplit n batch (ok r) h = sort_result-IsSplit n batch r r.result refl h
  add_answer-IsSplit n batch (err e) h = record {
    counted = omega (arith, h.counted, length-append {0} batch.failed (_ ∷ []));
    values = h.values;
  }

  add_answers-IsSplit :
      (rs : List (Result F (TaskResult T))) (n : ℕ) (batch : BatchResult T)
      → IsSplit n batch
      → IsSplit (length rs + n) (add_answers pool rs batch)
  unfolding add_answers
  add_answers-IsSplit [] n batch h = subst (λ (k : ℕ). IsSplit k batch) (omega arith) h
  add_answers-IsSplit (r ∷ rs) n batch h =
      subst (λ (k : ℕ). IsSplit k (add_answers pool rs (add_answer pool r batch))) (omega arith)
        (add_answers-IsSplit rs (suc n) (add_answer pool r batch) (add_answer-IsSplit n batch r h))

  -- A batch reports each of its tasks once.
  pub execute_batch-IsSplit :
      (tasks : List (Task S E T)) (s : S) → IsSplit (length tasks) (execute_batch pool tasks s).1
  unfolding execute_batch
  execute_batch-IsSplit tasks s =
      let rs = (pool.join_all (sort_tasks tasks) s).1 in
      subst (λ (k : ℕ). IsSplit k (execute_batch pool tasks s).1)
        (omega (
          arith,
          length_of_answers (sort_tasks tasks) rs (pool.join_all-AreAnswers (sort_tasks tasks) s),
          length-sort_tasks tasks,
        ))
        (add_answers-IsSplit rs 0 _ (record { counted = omega arith; values = tt }))
