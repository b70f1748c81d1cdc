-- ===== src/Scheduler.antt =====
-- `LockFreeTaskScheduler` of src/lock_free_scheduler.rs, one call at a time. The queues are those of
-- the crate `crossbeam`, a parameter; counters are unsigned words of 64 bits. The future of a task and
-- the channel of its result do nothing here.
pub mod Queued
pub mod Stealing
pub mod Pending
mod Tests
use snp.Prelude.{
  ℕ, zero, suc, ◌+◌, ◌%◌, Bool, true, false, not, if◌then◌else◌, nat_beq, nat_eq, ltb, List, [],
  ◌∷◌, ◌++◌, map, Option, none, some, String, ◌≡◌, length, Result, ok, err,
}
use snp.Cache.Stores.{DashMap}
use snp.Concurrency.Batch.{TaskConfig, TaskPriority}

pub record ScheduledTask : Type 0 where
  pub id : String
  pub priority : TaskPriority
  pub config : TaskConfig
  pub created_at : ℕ

pub data WorkerState : Type 0 where
  idle stealing : WorkerState
  working : (task_id : String) (started_at : ℕ) → WorkerState

abbrev pub first : {A : Type 0} → List A → Option A
first [] = none
first (x ∷ xs) = some x

abbrev pub rest : {A : Type 0} → List A → List A
rest [] = []
rest (x ∷ xs) = xs

-- `ArrayQueue`: first in, first out, and a full queue refuses; `SegQueue`: without a bound.
pub record Queues (A : Type 0) : Type 1 where
  pub ArrayQueue : Type 0
  pub SegQueue : Type 0
  pub new_array : (capacity : ℕ) → ArrayQueue
  pub new_seg : SegQueue
  pub push_array : A → ArrayQueue → Bool × ArrayQueue
  pub push_seg : A → SegQueue → SegQueue
  pub pop_array : ArrayQueue → Option A × ArrayQueue
  pub pop_seg : SegQueue → Option A × SegQueue
  pub capacity : ArrayQueue → ℕ
  pub array_items : ArrayQueue → List A
  pub seg_items : SegQueue → List A
  pub array_items-new : (n : ℕ) → array_items (new_array n) ≡ []
  pub seg_items-new : seg_items new_seg ≡ []
  pub push_array-accepts :
      (a : A) (q : ArrayQueue) → (push_array a q).0 ≡ ltb (length (array_items q)) (capacity q)
  pub array_items-push :
      (a : A) (q : ArrayQueue)
      → array_items (push_array a q).1
        ≡ (if (push_array a q).0 then array_items q ++ a ∷ [] else array_items q)
  pub seg_items-push : (a : A) (q : SegQueue) → seg_items (push_seg a q) ≡ seg_items q ++ a ∷ []
  pub array_items-pop : (q : ArrayQueue) → array_items (pop_array q).1 ≡ rest (array_items q)
  pub pop_array-first : (q : ArrayQueue) → (pop_array q).0 ≡ first (array_items q)
  pub seg_items-pop : (q : SegQueue) → seg_items (pop_seg q).1 ≡ rest (seg_items q)
  pub pop_seg-first : (q : SegQueue) → (pop_seg q).0 ≡ first (seg_items q)

-- `fetch_add` and `fetch_sub` wrap.
abbrev pub word : ℕ
word = 18446744073709551616

abbrev pub fetch_add : ℕ → ℕ → ℕ
fetch_add n k = (n + k) % word

abbrev pub fetch_decrement : ℕ → ℕ
fetch_decrement n = (n + 18446744073709551615) % word

abbrev pub schedule : (now : ℕ) → TaskConfig → ScheduledTask
schedule now config = record {
  id = config.id;
  priority = config.priority;
  config = config;
  created_at = now;
}

-- The clock's nanoseconds modulo the number of workers; there is a panic when there are none.
abbrev pub current_worker_id : (now num_workers : ℕ) → Option ℕ
current_worker_id now zero = none
current_worker_id now (suc n) = some (now % suc n)

module _ (Q : Queues ScheduledTask) where
  unfoldable pub new_queues : (num_workers local_queue_capacity : ℕ) → List Q.ArrayQueue
  new_queues zero c = []
  new_queues (suc n) c = Q.new_array c ∷ new_queues n c

  -- `push` into the queue of a worker, which fails without such a queue.
  unfoldable pub push_local : ℕ → ScheduledTask → List Q.ArrayQueue → Bool × List Q.ArrayQueue
  push_local i task [] = (false, [])
  push_local zero task (q ∷ qs) = let (accepted, q') = Q.push_array task q in (accepted, q' ∷ qs)
  push_local (suc i) task (q ∷ qs) =
      let (accepted, qs') = push_local i task qs in (accepted, q ∷ qs')

  -- `pop` from the queue of a worker, if it has one.
  unfoldable pub pop_own : ℕ → List Q.ArrayQueue → Option ScheduledTask × List Q.ArrayQueue
  pop_own i [] = (none, [])
  pop_own zero (q ∷ qs) = let (task, q') = Q.pop_array q in (task, q' ∷ qs)
  pop_own (suc i) (q ∷ qs) = let (task, qs') = pop_own i qs in (task, q ∷ qs')

  abbrev pub or_later :
      Option ScheduledTask
      → Q.ArrayQueue
      → Option ScheduledTask × List Q.ArrayQueue
      → List Q.ArrayQueue
      → Option ScheduledTask × List Q.ArrayQueue
  or_later (some task) q later qs = (some task, q ∷ qs)
  or_later none q later qs = (later.0, q ∷ later.1)

  -- The loop over the queues of the others, which stand from the number `i` on.
  unfoldable pub pop_other :
      (worker_id i : ℕ) → List Q.ArrayQueue → Option ScheduledTask × List Q.ArrayQueue
  pop_other w i [] = (none, [])
  pop_other w i (q ∷ qs) =
      let later = pop_other w (suc i) qs in
      let (task, q') = Q.pop_array q in
      if nat_beq i w then (later.0, q ∷ later.1) else or_later task q' later qs

module _ (Q : Queues ScheduledTask) (D : DashMap ℕ WorkerState) where
  pub record LockFreeTaskScheduler : Type 0 where
    pub global_queue : Q.SegQueue
    pub local_queues : List Q.ArrayQueue
    pub pending_tasks : ℕ
    pub completed_tasks : ℕ
    pub failed_tasks : ℕ
    pub stolen_tasks : ℕ
    pub submitted_tasks : ℕ
    pub worker_states : D.Store
    pub num_workers : ℕ
    pub local_queue_capacity : ℕ
    pub total_task_duration_ms : ℕ

  -- The crate's queue panics at a capacity of 0; here that capacity has a scheduler too.
  unfoldable pub new : (num_workers local_queue_capacity : ℕ) → LockFreeTaskScheduler
  unfolding new_queues
  new num_workers local_queue_capacity = record {
    global_queue = Q.new_seg;
    local_queues = new_queues Q num_workers local_queue_capacity;
    pending_tasks = 0;
    completed_tasks = 0;
    failed_tasks = 0;
    stolen_tasks = 0;
    submitted_tasks = 0;
    worker_states = D.new;
    num_workers = num_workers;
    local_queue_capacity = local_queue_capacity;
    total_task_duration_ms = 0;
  }

  -- `submit_task` with the worker that the clock chose.
  unfoldable pub submit_to : ℕ → ScheduledTask → LockFreeTaskScheduler → LockFreeTaskScheduler
  unfolding push_local
  submit_to worker_id task s =
      let (accepted, queues) = push_local Q worker_id task s.local_queues in
      record s {
        local_queues = queues;
        global_queue = if accepted then s.global_queue else Q.push_seg task s.global_queue;
        pending_tasks = fetch_add s.pending_tasks 1;
        submitted_tasks = fetch_add s.submitted_tasks 1;
      }

  unfoldable pub submit_task :
      (now : ℕ) → TaskConfig → LockFreeTaskScheduler → Option LockFreeTaskScheduler
  unfolding submit_to
  submit_task now config s = elim (current_worker_id now s.num_workers) [
    | none ↦ none
    | some worker_id ↦ some (submit_to worker_id (schedule now config) s)
  ]

  -- Each submission reads the clock.
  unfoldable pub submit_batch :
      List (ℕ × TaskConfig) → LockFreeTaskScheduler → Option LockFreeTaskScheduler
  unfolding submit_task
  submit_batch [] s = some s
  submit_batch ((now, config) ∷ tasks) s = elim (submit_task now config s) [
    | none ↦ none
    | some s' ↦ submit_batch tasks s'
  ]

  abbrev pub update_worker_working : (now worker_id : ℕ) → ScheduledTask → D.Store → D.Store
  update_worker_working now worker_id task states = D.insert worker_id (working task.id now) states

  -- The last resort of `steal_task`.
  abbrev pub take_global :
      (now worker_id : ℕ)
      → Option ScheduledTask × Q.SegQueue
      → LockFreeTaskScheduler
      → Option ScheduledTask × LockFreeTaskScheduler
  take_global now w (some task, global) s = (
    some task,
    record s {
      global_queue = global;
      worker_states = update_worker_working now w task s.worker_states;
    },
  )
  take_global now w (none, global) s =
      (none, record s { global_queue = global; worker_states = D.insert w idle s.worker_states })

  abbrev pub take_other :
      (now worker_id : ℕ)
      → Option ScheduledTask × List Q.ArrayQueue
      → LockFreeTaskScheduler
      → Option ScheduledTask × LockFreeTaskScheduler
  take_other now w (some task, queues) s = (
    some task,
    record s {
      local_queues = queues;
      stolen_tasks = fetch_add s.stolen_tasks 1;
      worker_states = update_worker_working now w task s.worker_states;
    },
  )
  take_other now w (none, queues) s =
      take_global now w (Q.pop_seg s.global_queue) (record s { local_queues = queues })

  abbrev pub take_own :
      (now worker_id : ℕ)
      → Option ScheduledTask × List Q.ArrayQueue
      → LockFreeTaskScheduler
      → Option ScheduledTask × LockFreeTaskScheduler
  take_own now w (some task, queues) s = (
    some task,
    record s {
      local_queues = queues;
      worker_states = update_worker_working now w task s.worker_states;
    },
  )
  take_own now w (none, queues) s =
      take_other now w (pop_other Q w 0 queues) (record s { local_queues = queues })

  unfoldable pub steal_task :
      (now worker_id : ℕ) → LockFreeTaskScheduler → Option ScheduledTask × LockFreeTaskScheduler
  unfolding pop_own pop_other
  steal_task now w s =
      take_own now w (pop_own Q w s.local_queues)
        (record s { worker_states = D.insert w stealing s.worker_states })

  unfoldable pub mark_task_completed :
      (worker_id duration : ℕ) → LockFreeTaskScheduler → LockFreeTaskScheduler
  mark_task_completed w duration s = record s {
    pending_tasks = fetch_decrement s.pending_tasks;
    completed_tasks = fetch_add s.completed_tasks 1;
    total_task_duration_ms = fetch_add s.total_task_duration_ms duration;
    worker_states = D.insert w idle s.worker_states;
  }

  unfoldable pub mark_task_failed : (worker_id : ℕ) → LockFreeTaskScheduler → LockFreeTaskScheduler
  mark_task_failed w s = record s {
    pending_tasks = fetch_decrement s.pending_tasks;
    failed_tasks = fetch_add s.failed_tasks 1;
    worker_states = D.insert w idle s.worker_states;
  }

  unfoldable pub has_pending_tasks : LockFreeTaskScheduler → Bool
  has_pending_tasks s = ltb 0 s.pending_tasks

  unfoldable pub reset_stats : LockFreeTaskScheduler → LockFreeTaskScheduler
  reset_stats s = record s {
    completed_tasks = 0;
    failed_tasks = 0;
    stolen_tasks = 0;
    submitted_tasks = 0;
    total_task_duration_ms = 0;
  }

  -- The global queue first, then the workers'.
  unfoldable pub get_queue_lengths : LockFreeTaskScheduler → List ℕ
  get_queue_lengths s =
      length (Q.seg_items s.global_queue) ∷ map (λ q. length (Q.array_items q)) s.local_queues
