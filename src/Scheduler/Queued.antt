-- ===== src/Scheduler/Queued.antt =====
-- The tasks in the queues of src/lock_free_scheduler.rs, counted by a test.
use snp.Prelude.{
  nat_eq, ℕ, zero, suc, ◌+◌, ◌≡◌, ◌<◌, refl, ap, sym, ◌∙◌, arith, Bool, if◌then◌else◌, nat_beq,
  List, [], ◌∷◌, Option, none, some, count_if, count_if-append,
}
use snp.Cache.Stores.{DashMap}
use snp.Scheduler.{
  Queues, ScheduledTask, WorkerState, LockFreeTaskScheduler, first, rest, push_local, submit_to,
  new_queues, pop_own, pop_other,
}

abbrev pub taken : (ScheduledTask → Bool) → Option ScheduledTask → ℕ
taken p none = 0
taken p (some task) = if p task then 1 else 0

count-first :
    (p : ScheduledTask → Bool) (tasks : List ScheduledTask)
    → count_if p tasks ≡ taken p (first tasks) + count_if p (rest tasks)
count-first p [] = omega arith
count-first p (task ∷ tasks) = refl

count_of_nothing :
    (p : ScheduledTask → Bool) (tasks : List ScheduledTask)
    → first tasks ≡ none
    → count_if p tasks ≡ 0
count_of_nothing p [] h = refl
count_of_nothing p (task ∷ tasks) h = absurd (cc)

module _ (Q : Queues ScheduledTask) (p : ScheduledTask → Bool) where
  abbrev pub queued_local : List Q.ArrayQueue → ℕ
  queued_local [] = 0
  queued_local (q ∷ qs) = count_if p (Q.array_items q) + queued_local qs

  count-pop_array :
      (q : Q.ArrayQueue)
      → count_if p (Q.array_items q)
        ≡ taken p (Q.pop_array q).0 + count_if p (Q.array_items (Q.pop_array q).1)
  count-pop_array q =
      rw (Q.pop_array-first q, Q.array_items-pop q) (count-first p (Q.array_items q))

  pub count-pop_seg :
      (q : Q.SegQueue)
      → count_if p (Q.seg_items q)
        ≡ taken p (Q.pop_seg q).0 + count_if p (Q.seg_items (Q.pop_seg q).1)
  count-pop_seg q = rw (Q.pop_seg-first q, Q.seg_items-pop q) (count-first p (Q.seg_items q))

  pub count-pop_seg_none :
      (q : Q.SegQueue) → (Q.pop_seg q).0 ≡ none → count_if p (Q.seg_items q) ≡ 0
  count-pop_seg_none q h = count_of_nothing p (Q.seg_items q) (sym (Q.pop_seg-first q) ∙ h)

  count-pop_array_none :
      (q : Q.ArrayQueue)
      → (Q.pop_array q).0 ≡ none
      → count_if p (Q.array_items (Q.pop_array q).1) ≡ 0
  count-pop_array_none q h = omega (
    arith,
    count-pop_array q,
    count_of_nothing p (Q.array_items q) (sym (Q.pop_array-first q) ∙ h),
  )

  pub queued-new : (n c : ℕ) → queued_local (new_queues Q n c) ≡ 0
  unfolding new_queues
  queued-new zero c = refl
  queued-new (suc n) c =
      omega
        (arith, queued-new n c, ap (λ (l : List ScheduledTask). count_if p l) (Q.array_items-new c))

  count-push_array :
      (task : ScheduledTask) (q : Q.ArrayQueue)
      → count_if p (Q.array_items (Q.push_array task q).1)
        ≡ count_if p (Q.array_items q)
          + (if (Q.push_array task q).0 then (if p task then 1 else 0) else 0)
  count-push_array task q = ground (
    arith,
    ap (λ (l : List ScheduledTask). count_if p l) (Q.array_items-push task q),
    count_if-append {0} p (Q.array_items q) (task ∷ []),
  )

  queued-push_local :
      (i : ℕ) (task : ScheduledTask) (qs : List Q.ArrayQueue)
      → queued_local (push_local Q i task qs).1
        ≡ queued_local qs + (if (push_local Q i task qs).0 then (if p task then 1 else 0) else 0)
  unfolding push_local
  queued-push_local i task [] = omega arith
  queued-push_local zero task (q ∷ qs) = omega (arith, count-push_array task q)
  queued-push_local (suc i) task (q ∷ qs) = omega (arith, queued-push_local i task qs)

  pub queued-pop_own :
      (i : ℕ) (qs : List Q.ArrayQueue)
      → queued_local qs ≡ taken p (pop_own Q i qs).0 + queued_local (pop_own Q i qs).1
  unfolding pop_own
  queued-pop_own i [] = omega arith
  queued-pop_own zero (q ∷ qs) = omega (arith, count-pop_array q)
  queued-pop_own (suc i) (q ∷ qs) = omega (arith, queued-pop_own i qs)

  pub queued-pop_other :
      (w i : ℕ) (qs : List Q.ArrayQueue)
      → queued_local qs ≡ taken p (pop_other Q w i qs).0 + queued_local (pop_other Q w i qs).1
  unfolding pop_other
  queued-pop_other w i [] = omega arith
  queued-pop_other w i (q ∷ qs) = ground (arith, count-pop_array q, queued-pop_other w (suc i) qs)

  -- The queue of a worker, and those of the others.
  abbrev at : ℕ → List Q.ArrayQueue → ℕ
  at i [] = 0
  at zero (q ∷ qs) = count_if p (Q.array_items q)
  at (suc i) (q ∷ qs) = at i qs

  abbrev others : (w i : ℕ) → List Q.ArrayQueue → ℕ
  others w i [] = 0
  others w i (q ∷ qs) =
      (if nat_beq i w then 0 else count_if p (Q.array_items q)) + others w (suc i) qs

  at-pop_own :
      (i : ℕ) (qs : List Q.ArrayQueue) → (pop_own Q i qs).0 ≡ none → at i (pop_own Q i qs).1 ≡ 0
  unfolding pop_own
  at-pop_own i [] h = refl
  at-pop_own zero (q ∷ qs) h = count-pop_array_none q h
  at-pop_own (suc i) (q ∷ qs) h = at-pop_own i qs h

  others-pop_other :
      (w i : ℕ) (qs : List Q.ArrayQueue) → (pop_other Q w i qs).0 ≡ none → others w i qs ≡ 0
  unfolding pop_other
  others-pop_other w i [] h = refl
  others-pop_other w i (q ∷ qs) h = ground (
    arith,
    count-pop_array q,
    count_of_nothing p (Q.array_items q),
    Q.pop_array-first q,
    others-pop_other w (suc i) qs,
  )

  -- The queues behind the worker's own are all of others.
  others_past : (w i : ℕ) (qs : List Q.ArrayQueue) → w < i → queued_local qs ≡ others w i qs
  others_past w i [] h = refl
  others_past w i (q ∷ qs) h = ground (arith, others_past w (suc i) qs)

  queued-at-others :
      (k w i : ℕ) (qs : List Q.ArrayQueue) → w ≡ i + k → queued_local qs ≡ at k qs + others w i qs
  queued-at-others k w i [] h = omega arith
  queued-at-others zero w i (q ∷ qs) h = ground (arith, others_past w (suc i) qs)
  queued-at-others (suc k) w i (q ∷ qs) h = ground (arith, queued-at-others k w (suc i) qs)

  -- A worker that finds nothing in its own queue and in those of the others: they are empty.
  pub queued_local-none :
      (w : ℕ) (qs : List Q.ArrayQueue)
      → (pop_own Q w qs).0 ≡ none
      → (pop_other Q w 0 (pop_own Q w qs).1).0 ≡ none
      → queued_local qs ≡ 0
  queued_local-none w qs h h' =
      let qs' = (pop_own Q w qs).1 in
      omega (
        arith,
        queued-pop_own w qs,
        ap (taken p) h,
        queued-at-others w w 0 qs' (omega arith),
        at-pop_own w qs h,
        others-pop_other w 0 qs' h',
      )

module _ (Q : Queues ScheduledTask) (D : DashMap ℕ WorkerState) (p : ScheduledTask → Bool) where
  abbrev pub queued : LockFreeTaskScheduler Q D → ℕ
  queued s = count_if p (Q.seg_items s.global_queue) + queued_local Q p s.local_queues

  -- A task that is submitted is queued, in one place, whichever worker the clock chose.
  pub queued-submit_to :
      (worker_id : ℕ) (task : ScheduledTask) (s : LockFreeTaskScheduler Q D)
      → queued (submit_to Q D worker_id task s) ≡ queued s + taken p (some task)
  unfolding submit_to
  queued-submit_to w task s = ground (
    arith,
    queued-push_local Q p w task s.local_queues,
    ap (λ (l : List ScheduledTask). count_if p l) (Q.seg_items-push task s.global_queue),
    count_if-append {0} p (Q.seg_items s.global_queue) (task ∷ []),
  )
