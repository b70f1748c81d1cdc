-- ===== src/Scheduler/Tests.antt =====
-- Two workers with queues of one place in src/lock_free_scheduler.rs.
use snp.Prelude.{
  ℕ, ◌≡◌, ◌↔◌, refl, arith, Bool, false, ltb, if◌then◌else◌, nat_eq, List, [], ◌∷◌, ◌++◌, some,
  string_eq, length, count_if,
}
use snp.Cache.Stores.{DashMap}
use snp.Cache.Example.{list_store}
use snp.Concurrency.Batch
use snp.Concurrency.Batch.{TaskConfig}
use snp.Scheduler
use snp.Scheduler.{
  Queues, ScheduledTask, WorkerState, LockFreeTaskScheduler, first, rest, schedule, submit_task,
  submit_batch, steal_task, mark_task_completed, has_pending_tasks, get_queue_lengths, new_queues,
}
use snp.Scheduler.Queued.{queued}
use snp.Scheduler.Stealing.{all_queued, steal_often, steal_often_drains}
use snp.Scheduler.Pending.{Reach, started, submitted, has_pending_tasks-exact}

-- A bounded queue is a capacity and a list.
abbrev lists : Queues ScheduledTask
lists = record {
  ArrayQueue = ℕ × List ScheduledTask;
  SegQueue = List ScheduledTask;
  new_array = λ n. (n, []);
  new_seg = [];
  push_array =
      λ a q. (ltb (length q.1) q.0, (q.0, if ltb (length q.1) q.0 then q.1 ++ a ∷ [] else q.1));
  push_seg = λ a q. q ++ a ∷ [];
  pop_array = λ q. (first q.1, (q.0, rest q.1));
  pop_seg = λ q. (first q, rest q);
  capacity = λ q. q.0;
  array_items = λ q. q.1;
  seg_items = λ q. q;
  array_items-new = λ n. refl;
  seg_items-new = refl;
  push_array-accepts = λ a q. refl;
  array_items-push = λ a q. refl;
  seg_items-push = λ a q. refl;
  array_items-pop = λ q. refl;
  pop_array-first = λ q. refl;
  seg_items-pop = λ q. refl;
  pop_seg-first = λ q. refl;
}

abbrev states : DashMap ℕ WorkerState
states = list_store WorkerState

abbrev empty : LockFreeTaskScheduler lists states
empty = Scheduler.new lists states 2 1

abbrev tasks : List (ℕ × TaskConfig)
tasks = (100, Batch.new "lint") ∷ (102, Batch.new "format") ∷ (103, Batch.new "test") ∷ []

-- The first worker's queue is full for the second task, which goes to the global queue.
abbrev busy : LockFreeTaskScheduler lists states
busy = record empty {
  global_queue = schedule 102 (Batch.new "format") ∷ [];
  local_queues =
      (1, schedule 100 (Batch.new "lint") ∷ []) ∷ (1, schedule 103 (Batch.new "test") ∷ []) ∷ [];
  pending_tasks = 3;
  submitted_tasks = 3;
}

tasks_submitted : submit_batch lists states tasks empty ≡ some busy
unfolding submit_batch Scheduler.new Batch.new
tasks_submitted = refl

steal_often_drains_example :
    ((p : ScheduledTask → Bool)
      → count_if p (steal_often lists states (200 ∷ 210 ∷ 220 ∷ []) 0 busy).0
        ≡ queued lists states p busy)
    × (all_queued lists states (steal_often lists states (200 ∷ 210 ∷ 220 ∷ []) 0 busy).1 ≡ 0)
steal_often_drains_example =
    steal_often_drains lists states (200 ∷ 210 ∷ 220 ∷ []) 0 busy (omega arith)

abbrev one : LockFreeTaskScheduler lists states
one = record empty {
  local_queues = (1, schedule 100 (Batch.new "lint") ∷ []) ∷ (1, []) ∷ [];
  pending_tasks = 1;
  submitted_tasks = 1;
}

one_submitted : submit_task lists states 100 (Batch.new "lint") empty ≡ some one
unfolding submit_task Scheduler.new
one_submitted = refl

one_reached : Reach lists states one 0
one_reached = submitted 100 (Batch.new "lint") (started 2 1) one_submitted

has_pending_tasks-exact_example :
    (has_pending_tasks lists states one ≡ false)
    ↔ ((all_queued lists states one ≡ 0) × (◌≡◌ {A = ℕ} 0 0))
unfolding Scheduler.new
has_pending_tasks-exact_example =
    has_pending_tasks-exact lists states one 0 one_reached (omega arith)
