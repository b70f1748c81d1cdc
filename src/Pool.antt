-- ===== src/Pool.antt =====
-- `ResourcePool` of src/resource_pool.rs, one call at a time. What the outside decides at a call
-- is its argument: the clock, whether the semaphore grants its permit, and what the resource's own
-- `create`, `is_healthy` and `reset` answer (`cleanup` changes nothing that the pool keeps). The
-- permit lives as long as the call of `acquire`, so it leaves no trace in the state.
pub mod Permits
pub mod Sizes
pub mod Steps
mod Tests
use snp.Prelude.{
  ℕ, zero, suc, ◌+◌, ◌-◌, Bool, true, false, List, [], ◌∷◌, ◌++◌, Option, none, some, if◌then◌else◌,
  length, ltb, Result, ok, err,
}

pub record PooledResource (T : Type 0) : Type 0 where
  pub resource : T
  pub created_at : ℕ
  pub last_used : ℕ
  pub use_count : ℕ

pub record PoolConfig : Type 0 where
  pub min_size : ℕ
  pub max_size : ℕ
  pub acquire_timeout : ℕ
  pub idle_timeout : ℕ

pub data PoolError : Type 0 where
  pool_shutdown acquire_timeout resource_creation : PoolError

-- What becomes of the request for a permit.
pub data Permit : Type 0 where
  granted timed_out semaphore_closed : Permit

pub record ResourcePool (T : Type 0) : Type 0 where
  pub available : List (PooledResource T)
  pub config : PoolConfig
  pub current_size : ℕ
  pub shutdown : Bool

pub record PoolMaintenance : Type 0 where
  pub resources_created : ℕ
  pub resources_removed : ℕ
  pub creation_failures : ℕ
  pub available_resources : ℕ
  pub total_resources : ℕ

pub record PoolStats : Type 0 where
  pub total_resources : ℕ
  pub available_resources : ℕ
  pub in_use_resources : ℕ
  pub max_size : ℕ
  pub min_size : ℕ
  pub is_shutdown : Bool

module _ {T : Type 0} where
  abbrev pub pooled_new : ℕ → T → PooledResource T
  pooled_new now resource = record {
    resource = resource;
    created_at = now;
    last_used = now;
    use_count = 0;
  }

  abbrev pub update_usage : ℕ → PooledResource T → PooledResource T
  update_usage now p = record p { last_used = now; use_count = p.use_count + 1 }

  unfoldable pub is_idle_too_long : ℕ → ℕ → PooledResource T → Bool
  is_idle_too_long now idle_timeout p = ltb idle_timeout (now - p.last_used)

  unfoldable pub new : PoolConfig → ResourcePool T
  new config = record { available = []; config = config; current_size = 0; shutdown = false }

  -- The loop over the available resources: the first healthy one, what is left, and the size
  -- without the unhealthy ones before it.
  unfoldable pub take_healthy :
      (T → Bool)
      → List (PooledResource T)
      → ℕ
      → Option (PooledResource T) × List (PooledResource T) × ℕ
  take_healthy healthy [] size = (none, [], size)
  take_healthy healthy (p ∷ ps) size =
      let rest = take_healthy healthy ps (size - 1) in
      if healthy p.resource then (some p, ps, size) else rest

  -- The end of `acquire`: the resource that was found, or a new one; `created` is what `T::create`
  -- returns, if it is called.
  abbrev pub hand_out :
      ℕ
      → Option T
      → Option (PooledResource T)
      → ResourcePool T
      → ResourcePool T × Result PoolError (PooledResource T)
  hand_out now created (some p) pool = (pool, ok (update_usage now p))
  hand_out now none none pool = (pool, err resource_creation)
  hand_out now (some t) none pool = (
    record pool { current_size = pool.current_size + 1 },
    ok (update_usage now (pooled_new now t)),
  )

  unfoldable pub acquire :
      ℕ
      → Permit
      → (T → Bool)
      → Option T
      → ResourcePool T
      → ResourcePool T × Result PoolError (PooledResource T)
  acquire now permit healthy created pool =
      if pool.shutdown then (pool, err pool_shutdown) else (elim permit [
        | timed_out ↦ (pool, err acquire_timeout)
        | semaphore_closed ↦ (pool, err pool_shutdown)
        | granted ↦
            let (found, rest, size) = take_healthy healthy pool.available pool.current_size in
            hand_out now created found (record pool { available = rest; current_size = size })
      ])

  -- `return_resource`; `reset` is the resource after a successful reset.
  unfoldable pub return_resource : Option T → PooledResource T → ResourcePool T → ResourcePool T
  return_resource reset p pool = if pool.shutdown then pool else (elim reset [
    | some t ↦ record pool { available = pool.available ++ record p { resource = t } ∷ [] }
    | none ↦ record pool { current_size = pool.current_size - 1 }
  ])

  -- The first loop of `maintain_pool`: what is kept, the size, and how many were removed.
  unfoldable pub drop_idle : ℕ → ℕ → List (PooledResource T) → ℕ → List (PooledResource T) × ℕ × ℕ
  unfolding is_idle_too_long
  drop_idle now idle_timeout [] size = ([], size, 0)
  drop_idle now idle_timeout (p ∷ ps) size =
      let idle = is_idle_too_long now idle_timeout p in
      let (kept, size', removed) =
        drop_idle now idle_timeout ps (if idle then size - 1 else size) in
      if idle then (kept, size', removed + 1) else (p ∷ kept, size', removed)

  -- The pool after one creation that maintenance has asked for.
  abbrev pub add_created : ℕ → Option T → ResourcePool T → ResourcePool T
  add_created now none pool = pool
  add_created now (some t) pool = record pool {
    available = pool.available ++ pooled_new now t ∷ [];
    current_size = pool.current_size + 1;
  }

  -- The counters after it.
  abbrev pub count_created : Option T → ResourcePool T × ℕ × ℕ → ResourcePool T × ℕ × ℕ
  count_created none (last, made, failed) = (last, made, failed + 1)
  count_created (some t) (last, made, failed) = (last, made + 1, failed)

  -- The second loop: `needed` creations, the one with `n` left answering `create n`.
  unfoldable pub refill :
      ℕ → (ℕ → Option T) → (needed : ℕ) → ResourcePool T → ResourcePool T × ℕ × ℕ
  refill now create zero pool = (pool, 0, 0)
  refill now create (suc n) pool =
      count_created (create n) (refill now create n (add_created now (create n) pool))

  unfoldable pub maintain_pool :
      ℕ → (ℕ → Option T) → ResourcePool T → ResourcePool T × Result PoolError PoolMaintenance
  maintain_pool now create pool =
      if pool.shutdown
      then (pool, err pool_shutdown)
      else (let (kept, size, removed) =
            drop_idle now pool.config.idle_timeout pool.available pool.current_size in
          let (pool', made, failed) =
            refill now create (pool.config.min_size - size)
              (record pool { available = kept; current_size = size }) in
          (
            pool',
            ok (record {
              resources_created = made;
              resources_removed = removed;
              creation_failures = failed;
              available_resources = length kept;
              total_resources = pool'.current_size;
            }),
          ))

  unfoldable pub stats : ResourcePool T → PoolStats
  stats pool = record {
    total_resources = pool.current_size;
    available_resources = length pool.available;
    in_use_resources = pool.current_size - length pool.available;
    max_size = pool.config.max_size;
    min_size = pool.config.min_size;
    is_shutdown = pool.shutdown;
  }

  unfoldable pub shut_down : ResourcePool T → ResourcePool T
  shut_down pool = record pool { available = []; current_size = 0; shutdown = true }
