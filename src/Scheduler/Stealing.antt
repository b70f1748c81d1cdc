-- ===== src/Scheduler/Stealing.antt =====
-- `steal_task` of src/lock_free_scheduler.rs finds what is queued, and loses nothing.
use snp.Prelude.{
  ℕ, ◌+◌, ◌≡◌, ◌≤◌, refl, ap, arith, Bool, true, nat_eq, List, [], ◌∷◌, Option, none, some,
  count_if, length, Option-cases, inl, inr, ◌⊎◌,
}
use snp.Cache.Stores.{DashMap}
use snp.Scheduler.{
  Queues, ScheduledTask, WorkerState, LockFreeTaskScheduler, pop_own, pop_other, steal_task,
  take_own, take_other, take_global,
}
use snp.Scheduler.Queued.{
  taken, queued_local, queued, count-pop_seg, count-pop_seg_none, queued-pop_own, queued-pop_other,
  queued_local-none,
}

module _ (Q : Queues ScheduledTask) (D : DashMap ℕ WorkerState) (p : ScheduledTask → Bool)
    (now w : ℕ) where
  -- One lemma for each of the places that are tried: the tasks before are the one taken and those
  -- that are left.
  queued-take_global :
      (popped : Option ScheduledTask × Q.SegQueue) (s : LockFreeTaskScheduler Q D) (n : ℕ)
      → n ≡ taken p popped.0 + count_if p (Q.seg_items popped.1) + queued_local Q p s.local_queues
      → n
        ≡ taken p (take_global Q D now w popped s).0
          + queued Q D p (take_global Q D now w popped s).1
  queued-take_global (none, global) s n h = omega arith
  queued-take_global (some task, global) s n h = omega arith

  queued-take_other :
      (popped : Option ScheduledTask × List Q.ArrayQueue) (s : LockFreeTaskScheduler Q D) (n : ℕ)
      → n ≡ taken p popped.0 + queued_local Q p popped.1 + count_if p (Q.seg_items s.global_queue)
      → n
        ≡ taken p (take_other Q D now w popped s).0 + queued Q D p (take_other Q D now w popped s).1
  queued-take_other (some task, queues) s n h = omega arith
  queued-take_other (none, queues) s n h =
      queued-take_global (Q.pop_seg s.global_queue) (record s { local_queues = queues }) n
        (omega (arith, count-pop_seg Q p s.global_queue))

  queued-take_own :
      (popped : Option ScheduledTask × List Q.ArrayQueue) (s : LockFreeTaskScheduler Q D) (n : ℕ)
      → n ≡ taken p popped.0 + queued_local Q p popped.1 + count_if p (Q.seg_items s.global_queue)
      → n ≡ taken p (take_own Q D now w popped s).0 + queued Q D p (take_own Q D now w popped s).1
  queued-take_own (some task, queues) s n h = omega arith
  queued-take_own (none, queues) s n h =
      queued-take_other (pop_other Q w 0 queues) (record s { local_queues = queues }) n
        (omega (arith, queued-pop_other Q p w 0 queues))

  -- The tasks that pass a test are those queued afterwards and the one that was taken.
  pub queued-steal_task :
      (s : LockFreeTaskScheduler Q D)
      → queued Q D p s
        ≡ taken p (steal_task Q D now w s).0 + queued Q D p (steal_task Q D now w s).1
  unfolding steal_task
  queued-steal_task s =
      queued-take_own (pop_own Q w s.local_queues) _ (queued Q D p s)
        (omega (arith, queued-pop_own Q p w s.local_queues))

  take_global-none :
      (popped : Option ScheduledTask × Q.SegQueue) (s : LockFreeTaskScheduler Q D)
      → (take_global Q D now w popped s).0 ≡ none
      → popped.0 ≡ none
  take_global-none (none, global) s h = refl
  take_global-none (some task, global) s h = absurd (cc)

  take_other-none :
      (popped : Option ScheduledTask × List Q.ArrayQueue) (s : LockFreeTaskScheduler Q D)
      → (take_other Q D now w popped s).0 ≡ none
      → (popped.0 ≡ none) × ((Q.pop_seg s.global_queue).0 ≡ none)
  take_other-none (none, queues) s h =
      (refl, take_global-none (Q.pop_seg s.global_queue) (record s { local_queues = queues }) h)
  take_other-none (some task, queues) s h = absurd (cc)

  take_own-none :
      (popped : Option ScheduledTask × List Q.ArrayQueue) (s : LockFreeTaskScheduler Q D)
      → (take_own Q D now w popped s).0 ≡ none
      → (popped.0 ≡ none)
        × ((pop_other Q w 0 popped.1).0 ≡ none)
        × ((Q.pop_seg s.global_queue).0 ≡ none)
  take_own-none (none, queues) s h =
      let (a, b) =
        take_other-none (pop_other Q w 0 queues) (record s { local_queues = queues }) h in
      (refl, a, b)
  take_own-none (some task, queues) s h = absurd (cc)

  -- A worker is sent away only from empty queues.
  pub queued-steal_task-none :
      (s : LockFreeTaskScheduler Q D) → (steal_task Q D now w s).0 ≡ none → queued Q D p s ≡ 0
  unfolding steal_task
  queued-steal_task-none s h =
      let (own, other, global) = take_own-none (pop_own Q w s.local_queues) _ h in
      omega (
        arith,
        queued_local-none Q p w s.local_queues own other,
        count-pop_seg_none Q p s.global_queue global,
      )

module _ (Q : Queues ScheduledTask) (D : DashMap ℕ WorkerState) where
  -- How many tasks are queued.
  abbrev pub all_queued : LockFreeTaskScheduler Q D → ℕ
  all_queued = queued Q D (λ task. true)

  count_if-le_length :
      (p : ScheduledTask → Bool) (ts : List ScheduledTask) → count_if p ts ≤ count_if (λ t. true) ts
  count_if-le_length p [] = omega arith
  count_if-le_length p (t ∷ ts) = ground (arith, count_if-le_length p ts)

  queued_local-le :
      (p : ScheduledTask → Bool) (qs : List Q.ArrayQueue)
      → queued_local Q p qs ≤ queued_local Q (λ t. true) qs
  queued_local-le p [] = omega arith
  queued_local-le p (q ∷ qs) =
      omega (arith, count_if-le_length p (Q.array_items q), queued_local-le p qs)

  -- A worker that steals at the times of the list, and what it got.
  abbrev pub prepend : Option ScheduledTask → List ScheduledTask → List ScheduledTask
  prepend none ts = ts
  prepend (some t) ts = t ∷ ts

  unfoldable pub steal_often :
      (times : List ℕ) (worker_id : ℕ)
      → LockFreeTaskScheduler Q D
      → List ScheduledTask × LockFreeTaskScheduler Q D
  unfolding steal_task
  steal_often [] w s = ([], s)
  steal_often (now ∷ times) w s =
      let (task, s') = steal_task Q D now w s in
      let (tasks, s'') = steal_often times w s' in (prepend task tasks, s'')

  count_if-prepend :
      (p : ScheduledTask → Bool) (task : Option ScheduledTask) (tasks : List ScheduledTask)
      → count_if p (prepend task tasks) ≡ taken p task + count_if p tasks
  count_if-prepend p none tasks = omega arith
  count_if-prepend p (some t) tasks = refl

  queued-steal_often :
      (p : ScheduledTask → Bool) (times : List ℕ) (w : ℕ) (s : LockFreeTaskScheduler Q D)
      → queued Q D p s
        ≡ count_if p (steal_often times w s).0 + queued Q D p (steal_often times w s).1
  unfolding steal_often
  queued-steal_often p [] w s = omega arith
  queued-steal_often p (now ∷ times) w s =
      let (task, s') = steal_task Q D now w s in
      omega (
        arith,
        queued-steal_task Q D p now w s,
        queued-steal_often p times w s',
        count_if-prepend p task (steal_often times w s').0,
      )

  steal_task-fewer :
      (now w : ℕ) (s : LockFreeTaskScheduler Q D)
      → (all_queued (steal_task Q D now w s).1 + 1 ≡ all_queued s) ⊎ (all_queued s ≡ 0)
  steal_task-fewer now w s = elim (Option-cases (steal_task Q D now w s).0) [
    | inl nothing ↦ inr (queued-steal_task-none Q D (λ t. true) now w s nothing)
    | inr (task, got) ↦ inl (
        omega (
          arith,
          queued-steal_task Q D (λ t. true) now w s,
          ap (taken (λ (t : ScheduledTask). true)) got,
        ))
  ]

  steal_often_empties :
      (times : List ℕ) (w : ℕ) (s : LockFreeTaskScheduler Q D)
      → all_queued s ≤ length times
      → all_queued (steal_often times w s).1 ≡ 0
  unfolding steal_often
  steal_often_empties [] w s h = omega arith
  steal_often_empties (now ∷ times) w s h =
      let (task, s') = steal_task Q D now w s in
      steal_often_empties times w s' (elim (steal_task-fewer now w s) [
        | inl fewer ↦ omega arith
        | inr empty ↦ omega (arith, queued-steal_task Q D (λ t. true) now w s)
      ])

  -- A worker that steals at least as often as there are tasks gets all of them, each as often as it
  -- was queued and from whichever queue, and leaves nothing.
  pub steal_often_drains :
      (times : List ℕ) (worker_id : ℕ) (s : LockFreeTaskScheduler Q D)
      → all_queued s ≤ length times
      → ((p : ScheduledTask → Bool) → count_if p (steal_often times worker_id s).0 ≡ queued Q D p s)
        × (all_queued (steal_often times worker_id s).1 ≡ 0)
  steal_often_drains times w s h =
      let s' = (steal_often times w s).1 in
      let empty : all_queued s' ≡ 0 = steal_often_empties times w s h in
      (
        λ p. omega (
          arith,
          queued-steal_often p times w s,
          count_if-le_length p (Q.seg_items s'.global_queue),
          queued_local-le p s'.local_queues,
        ),
        empty,
      )
