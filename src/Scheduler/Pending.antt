-- ===== src/Scheduler/Pending.antt =====
-- The counter of pending tasks in src/lock_free_scheduler.rs, over every sequence of calls.
use snp.Prelude.{
  ℕ, suc, ◌+◌, ◌%◌, ◌≡◌, ◌<◌, refl, ap, arith, true, false, nat_eq, List, Option, none, some,
  count_if, inl, inr, ◌↔◌, Option-cases, subst,
}
use snp.Cache.Stores.{DashMap}
use snp.Concurrency.Batch.{TaskConfig}
use snp.Scheduler
use snp.Scheduler.{
  Queues, ScheduledTask, WorkerState, LockFreeTaskScheduler, schedule, submit_to, submit_task,
  current_worker_id, steal_task, take_own, take_other, take_global, pop_own, pop_other,
  mark_task_completed, mark_task_failed, reset_stats, has_pending_tasks, word, fetch_add,
  fetch_decrement,
}
use snp.Scheduler.Queued.{taken, queued-new, queued-submit_to}
use snp.Scheduler.Stealing.{all_queued, queued-steal_task}

module _ (Q : Queues ScheduledTask) (D : DashMap ℕ WorkerState) where
  -- The states that calls lead to, with the number of tasks that were stolen and are not finished:
  -- only a task that was stolen is marked.
  pub data Reach : LockFreeTaskScheduler Q D → ℕ → Type 0 where
    started : (num_workers capacity : ℕ) → Reach (Scheduler.new Q D num_workers capacity) 0
    submitted :
        {s s' : LockFreeTaskScheduler Q D} {running : ℕ} (now : ℕ) (config : TaskConfig)
        → Reach s running
        → submit_task Q D now config s ≡ some s'
        → Reach s' running
    stole :
        {s : LockFreeTaskScheduler Q D} {running : ℕ} (now worker_id : ℕ) (task : ScheduledTask)
        → Reach s running
        → (steal_task Q D now worker_id s).0 ≡ some task
        → Reach (steal_task Q D now worker_id s).1 (suc running)
    found_nothing :
        {s : LockFreeTaskScheduler Q D} {running : ℕ} (now worker_id : ℕ)
        → Reach s running
        → (steal_task Q D now worker_id s).0 ≡ none
        → Reach (steal_task Q D now worker_id s).1 running
    completed :
        {s : LockFreeTaskScheduler Q D} {running : ℕ} (worker_id duration : ℕ)
        → Reach s (suc running)
        → Reach (mark_task_completed Q D worker_id duration s) running
    failed :
        {s : LockFreeTaskScheduler Q D} {running : ℕ} (worker_id : ℕ)
        → Reach s (suc running)
        → Reach (mark_task_failed Q D worker_id s) running
    reset :
        {s : LockFreeTaskScheduler Q D} {running : ℕ}
        → Reach s running
        → Reach (reset_stats Q D s) running

  -- A steal leaves the counter, wherever it finds its task.
  pending-take_global :
      (now w : ℕ) (popped : Option ScheduledTask × Q.SegQueue) (s : LockFreeTaskScheduler Q D)
      → (take_global Q D now w popped s).1.pending_tasks ≡ s.pending_tasks
  pending-take_global now w (none, global) s = refl
  pending-take_global now w (some task, global) s = refl

  pending-take_other :
      (now w : ℕ) (popped : Option ScheduledTask × List Q.ArrayQueue)
      (s : LockFreeTaskScheduler Q D)
      → (take_other Q D now w popped s).1.pending_tasks ≡ s.pending_tasks
  pending-take_other now w (none, queues) s =
      pending-take_global now w (Q.pop_seg s.global_queue) (record s { local_queues = queues })
  pending-take_other now w (some task, queues) s = refl

  pending-take_own :
      (now w : ℕ) (popped : Option ScheduledTask × List Q.ArrayQueue)
      (s : LockFreeTaskScheduler Q D)
      → (take_own Q D now w popped s).1.pending_tasks ≡ s.pending_tasks
  pending-take_own now w (none, queues) s =
      pending-take_other now w (pop_other Q w 0 queues) (record s { local_queues = queues })
  pending-take_own now w (some task, queues) s = refl

  pending-steal_task :
      (now w : ℕ) (s : LockFreeTaskScheduler Q D)
      → (steal_task Q D now w s).1.pending_tasks ≡ s.pending_tasks
  unfolding steal_task
  pending-steal_task now w s = pending-take_own now w (pop_own Q w s.local_queues) _

  pending-submit_to :
      (w : ℕ) (task : ScheduledTask) (s : LockFreeTaskScheduler Q D)
      → (submit_to Q D w task s).pending_tasks ≡ fetch_add s.pending_tasks 1
  unfolding submit_to
  pending-submit_to w task s = refl

  abbrev Added : (s s' : LockFreeTaskScheduler Q D) → Type 0
  Added s s' =
      (all_queued Q D s' ≡ all_queued Q D s + 1) × (s'.pending_tasks ≡ fetch_add s.pending_tasks 1)

  submit_to-Added :
      (w : ℕ) (task : ScheduledTask) (s s' : LockFreeTaskScheduler Q D)
      → submit_to Q D w task s ≡ s'
      → Added s s'
  submit_to-Added w task s s' e =
      subst (λ (x : LockFreeTaskScheduler Q D). Added s x) e
        (queued-submit_to Q D (λ t. true) w task s, pending-submit_to w task s)

  submit_task-Added :
      (now : ℕ) (config : TaskConfig) (s s' : LockFreeTaskScheduler Q D)
      → submit_task Q D now config s ≡ some s'
      → Added s s'
  unfolding submit_task
  submit_task-Added now config s s' h = elim (Option-cases (current_worker_id now s.num_workers)) [
    | inl panics ↦ absurd (ground arith)
    | inr (w, chosen) ↦ submit_to-Added w (schedule now config) s s' (ground arith)
  ]

  queued-start : (n c : ℕ) → all_queued Q D (Scheduler.new Q D n c) ≡ 0
  unfolding Scheduler.new
  queued-start n c = omega (
    arith,
    queued-new Q (λ t. true) n c,
    ap (λ (l : List ScheduledTask). count_if (λ t. true) l) Q.seg_items-new,
  )

  -- The counter is the number of the tasks that are queued or running, as a word.
  pub Reach-pending :
      {s : LockFreeTaskScheduler Q D} {running : ℕ}
      → Reach s running
      → s.pending_tasks ≡ (all_queued Q D s + running) % word
  unfolding Scheduler.new mark_task_completed mark_task_failed reset_stats
  Reach-pending (started n c) = omega (arith, queued-start n c)
  Reach-pending (submitted {s} {s'} now config r e) =
      let (queued_more, counted_more) = submit_task-Added now config s s' e in
      omega (arith, Reach-pending r)
  Reach-pending (stole {s} now w task r e) = omega (
    arith,
    Reach-pending r,
    pending-steal_task now w s,
    queued-steal_task Q D (λ t. true) now w s,
    ap (taken (λ (t : ScheduledTask). true)) e,
  )
  Reach-pending (found_nothing {s} now w r e) = omega (
    arith,
    Reach-pending r,
    pending-steal_task now w s,
    queued-steal_task Q D (λ t. true) now w s,
    ap (taken (λ (t : ScheduledTask). true)) e,
  )
  Reach-pending (completed w duration r) = omega (arith, Reach-pending r)
  Reach-pending (failed w r) = omega (arith, Reach-pending r)
  Reach-pending (reset r) = Reach-pending r

  -- As long as fewer tasks are queued or running than a word counts, the scheduler says that it has
  -- no pending tasks exactly when none is queued and none is running: what its shutdown waits for.
  pub has_pending_tasks-exact :
      (s : LockFreeTaskScheduler Q D) (running : ℕ)
      → Reach s running
      → all_queued Q D s + running < word
      → (has_pending_tasks Q D s ≡ false) ↔ ((all_queued Q D s ≡ 0) × (running ≡ 0))
  unfolding has_pending_tasks
  has_pending_tasks-exact s running r bound = (
    λ h.
        let none_left : s.pending_tasks ≡ 0 = ground arith in
        (omega (arith, Reach-pending r), omega (arith, Reach-pending r)),
    λ h. let none_left : s.pending_tasks ≡ 0 = omega (arith, Reach-pending r) in ground arith,
  )
