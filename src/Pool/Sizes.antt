-- ===== src/Pool/Sizes.antt =====
-- What the calls of src/resource_pool.rs do to the size of the pool and to its resources.
use snp.Prelude.{
  ℕ, zero, suc, ◌+◌, ◌-◌, ◌≡◌, ◌≤◌, refl, Bool, true, false, List, [], ◌∷◌, Option, none, some,
  length, length-append, Result, ok, err, arith, ◌∙◌, inl, inr, Bool-cases, if_ind, subst, sym,
}
use snp.Pool.{
  pool_shutdown, PooledResource, PoolMaintenance, PoolError, granted, timed_out, semaphore_closed,
  ResourcePool, take_healthy, acquire, return_resource, drop_idle, refill, hand_out, add_created,
  count_created, Permit, maintain_pool, is_idle_too_long, pooled_new,
}

module _ {T : Type 0} where
  -- The size goes down by the unhealthy resources that are thrown away.
  pub take_healthy-size :
      (healthy : T → Bool) (ps : List (PooledResource T)) (n : ℕ)
      → let r = take_healthy healthy ps (length ps + n) in
        r.2 ≡ length r.1 + n + elim r.0 [ none ↦ 0 | some _ ↦ 1 ]
  unfolding take_healthy
  take_healthy-size healthy [] n = omega arith
  take_healthy-size healthy (p ∷ ps) n =
      let e : suc (length ps) + n - 1 ≡ length ps + n = omega arith in
      let e' : suc (length ps) + n ≡ length ps + n + 1 = omega arith in
      let ih = take_healthy-size healthy ps n in
      elim (Bool-cases (healthy p.resource)) [ inl h ↦ rw h e' | inr h ↦ rw (h, e) ih ]

  pub drop_idle-size :
      (now idle : ℕ) (ps : List (PooledResource T)) (n : ℕ)
      → let r = drop_idle now idle ps (length ps + n) in
        (r.1 ≡ length r.0 + n) × (length r.0 + r.2 ≡ length ps)
  unfolding drop_idle
  drop_idle-size now idle [] n = (refl, refl)
  drop_idle-size now idle (p ∷ ps) n =
      let e : suc (length ps) + n - 1 ≡ length ps + n = omega arith in
      let e' : suc (length ps) + n ≡ length ps + suc n = omega arith in
      let (a, b) = drop_idle-size now idle ps n in
      let (c, d) = drop_idle-size now idle ps (suc n) in
      elim (Bool-cases (is_idle_too_long now idle p)) [
        | inl h ↦ rw (h, e) (a, omega (arith, b))
        | inr h ↦ rw (h, e') (omega (arith, c), omega (arith, d))
      ]

  -- What `n` creations make of a pool whose size counts `m` resources in use.
  pub record IsRefill (pool : ResourcePool T) (m n : ℕ) (r : ResourcePool T × ℕ × ℕ) : Type 0 where
    pub size : r.0.current_size ≡ length r.0.available + m
    pub grown : r.0.current_size ≡ pool.current_size + r.1
    pub total : r.1 + r.2 ≡ n
    pub open_still : r.0.shutdown ≡ pool.shutdown
    pub config : r.0.config ≡ pool.config

  count_created-IsRefill :
      (now m n : ℕ) (o : Option T) (pool : ResourcePool T) (r : ResourcePool T × ℕ × ℕ)
      → IsRefill (add_created now o pool) m n r
      → IsRefill pool m (suc n) (count_created o r)
  count_created-IsRefill now m n none pool r h = record {
    size = h.size;
    grown = h.grown;
    total = omega (arith, h.total);
    open_still = h.open_still;
    config = h.config;
  }
  count_created-IsRefill now m n (some t) pool r h = record {
    size = h.size;
    grown = omega (arith, h.grown);
    total = omega (arith, h.total);
    open_still = h.open_still;
    config = h.config;
  }

  add_created-size :
      (now m : ℕ) (o : Option T) (pool : ResourcePool T)
      → pool.current_size ≡ length pool.available + m
      → (add_created now o pool).current_size ≡ length (add_created now o pool).available + m
  add_created-size now m none pool h = h
  add_created-size now m (some t) pool h =
      omega (arith, h, length-append pool.available (pooled_new now t ∷ []))

  pub refill-IsRefill :
      (now : ℕ) (create : ℕ → Option T) (n : ℕ) (pool : ResourcePool T) (m : ℕ)
      → pool.current_size ≡ length pool.available + m
      → IsRefill pool m n (refill now create n pool)
  unfolding refill
  refill-IsRefill now create zero pool m h = record {
    size = h;
    grown = omega arith;
    total = omega arith;
    open_still = refl;
    config = refl;
  }
  refill-IsRefill now create (suc n) pool m h =
      count_created-IsRefill now m n (create n) pool _
        (refill-IsRefill now create n _ m (add_created-size now m (create n) pool h))

  -- How many guards an answer of `acquire` holds.
  abbrev pub handed : Result PoolError (PooledResource T) → ℕ
  handed (err e) = 0
  handed (ok p) = 1

  -- An `acquire` puts one more resource in use if it succeeds, and the size counts it.
  pub record IsServed (shutdown : Bool) (m : ℕ)
      (r : ResourcePool T × Result PoolError (PooledResource T)) : Type 0 where
    pub size : r.0.current_size ≡ length r.0.available + m + handed r.1
    pub open_still : r.0.shutdown ≡ shutdown

  hand_out-IsServed :
      (now m : ℕ) (created : Option T) (found : Option (PooledResource T)) (pool : ResourcePool T)
      → pool.current_size ≡ length pool.available + m + elim found [ none ↦ 0 | some _ ↦ 1 ]
      → IsServed pool.shutdown m (hand_out now created found pool)
  hand_out-IsServed now m created (some p) pool h = record { size = h; open_still = refl }
  hand_out-IsServed now m none none pool h = record { size = h; open_still = refl }
  hand_out-IsServed now m (some t) none pool h = record {
    size = omega (arith, h);
    open_still = refl;
  }

  pub acquire-IsServed :
      (now : ℕ) (permit : Permit) (healthy : T → Bool) (created : Option T) (pool : ResourcePool T)
      (m : ℕ)
      → pool.current_size ≡ length pool.available + m
      → IsServed pool.shutdown m (acquire now permit healthy created pool)
  unfolding acquire
  acquire-IsServed now timed_out healthy created pool m h =
      if_ind
        (λ (r : ResourcePool T × Result PoolError (PooledResource T)). IsServed pool.shutdown m r)
        pool.shutdown (λ _. record { size = omega (arith, h); open_still = refl })
        (λ _. record { size = omega (arith, h); open_still = refl })
  acquire-IsServed now semaphore_closed healthy created pool m h =
      if_ind
        (λ (r : ResourcePool T × Result PoolError (PooledResource T)). IsServed pool.shutdown m r)
        pool.shutdown (λ _. record { size = omega (arith, h); open_still = refl })
        (λ _. record { size = omega (arith, h); open_still = refl })
  acquire-IsServed now granted healthy created pool m h =
      if_ind
        (λ (r : ResourcePool T × Result PoolError (PooledResource T)). IsServed pool.shutdown m r)
        pool.shutdown (λ _. record { size = omega (arith, h); open_still = refl })
        (λ _. hand_out-IsServed now m created _ _ (
          subst
            (λ (n : ℕ).
              let r = take_healthy healthy pool.available n in
              r.2 ≡ length r.1 + m + elim r.0 [ none ↦ 0 | some _ ↦ 1 ])
            (sym h) (take_healthy-size healthy pool.available m)))

  -- A pool that was shut down answers every call with no change.
  pub acquire_shut :
      (now : ℕ) (permit : Permit) (healthy : T → Bool) (created : Option T) (pool : ResourcePool T)
      → pool.shutdown ≡ true
      → acquire now permit healthy created pool ≡ (pool, err pool_shutdown)
  unfolding acquire
  acquire_shut now permit healthy created pool h =
      if_ind
        (λ (r : ResourcePool T × Result PoolError (PooledResource T)).
          r ≡ (pool, err pool_shutdown))
        pool.shutdown (λ _. refl) (λ o. ground arith)

  pub return_resource_shut :
      (reset : Option T) (p : PooledResource T) (pool : ResourcePool T)
      → pool.shutdown ≡ true
      → return_resource reset p pool ≡ pool
  unfolding return_resource
  return_resource_shut reset p pool h =
      if_ind (λ (r : ResourcePool T). r ≡ pool) pool.shutdown (λ _. refl) (λ o. ground arith)

  pub maintain_pool_shut :
      (now : ℕ) (create : ℕ → Option T) (pool : ResourcePool T)
      → pool.shutdown ≡ true
      → maintain_pool now create pool ≡ (pool, err pool_shutdown)
  unfolding maintain_pool
  maintain_pool_shut now create pool h =
      if_ind
        (λ (r : ResourcePool T × Result PoolError PoolMaintenance). r ≡ (pool, err pool_shutdown))
        pool.shutdown (λ _. refl) (λ o. ground arith)

  pub return_resource-size :
      (reset : Option T) (p : PooledResource T) (pool : ResourcePool T) (n : ℕ)
      → pool.shutdown ≡ false
      → pool.current_size ≡ length pool.available + suc n
      → let r = return_resource reset p pool in
        (r.current_size ≡ length r.available + n) × (r.shutdown ≡ false)
  unfolding return_resource
  return_resource-size none p pool n o h =
      if_ind
        (λ (r : ResourcePool T). (r.current_size ≡ length r.available + n) × (r.shutdown ≡ false))
        pool.shutdown (λ x. ground arith) (λ _. (omega (arith, h), o))
  return_resource-size (some t) p pool n o h =
      if_ind
        (λ (r : ResourcePool T). (r.current_size ≡ length r.available + n) × (r.shutdown ≡ false))
        pool.shutdown (λ x. ground arith)
        (λ _. (omega (arith, h, length-append pool.available (record p { resource = t } ∷ [])), o))

  -- What maintenance reports of an open pool with `m` resources in use, and what it leaves.
  pub record IsMaintained (pool : ResourcePool T) (m : ℕ)
      (r : ResourcePool T × Result PoolError PoolMaintenance) : Type 0 where
    pub report : PoolMaintenance
    pub reported : r.1 ≡ ok report
    pub size : r.0.current_size ≡ length r.0.available + m
    pub open_still : r.0.shutdown ≡ false
    pub total : report.total_resources ≡ r.0.current_size
    pub balance :
        r.0.current_size + report.resources_removed ≡ pool.current_size + report.resources_created
    pub shortfall :
        report.resources_created + report.creation_failures
        ≡ pool.config.min_size + report.resources_removed - pool.current_size
    pub at_least_min : pool.config.min_size ≤ r.0.current_size + report.creation_failures

  -- Maintenance of an open pool whose size counts its resources succeeds and keeps it so; the size
  -- changes by what the report counts as created and removed, and the shortfall below `min_size` is
  -- made up but for the creations that the report counts as failed.
  pub maintain_pool-IsMaintained :
      (now : ℕ) (create : ℕ → Option T) (pool : ResourcePool T) (m : ℕ)
      → pool.shutdown ≡ false
      → pool.current_size ≡ length pool.available + m
      → IsMaintained pool m (maintain_pool now create pool)
  unfolding maintain_pool
  maintain_pool-IsMaintained now create pool m o h =
      let idle = pool.config.idle_timeout in
      let d : ℕ → List (PooledResource T) × ℕ × ℕ = drop_idle now idle pool.available in
      let (a, b) =
        subst
          (λ (n : ℕ).
            ((d n).1 ≡ length (d n).0 + m) × (length (d n).0 + (d n).2 ≡ length pool.available))
          (sym h) (drop_idle-size now idle pool.available m) in
      let f =
        refill-IsRefill now create (pool.config.min_size - (d pool.current_size).1)
          (record pool {
            available = (d pool.current_size).0;
            current_size = (d pool.current_size).1;
          })
          m a in
      if_ind (λ (r : ResourcePool T × Result PoolError PoolMaintenance). IsMaintained pool m r)
        pool.shutdown (λ x. absurd (ground arith))
        (λ _. record {
          report = _;
          reported = refl;
          size = f.size;
          open_still = f.open_still ∙ o;
          total = refl;
          balance = omega (arith, f.grown, a, b, h);
          shortfall = omega (arith, f.total, a, b, h);
          at_least_min = omega (arith, f.grown, f.total);
        })
