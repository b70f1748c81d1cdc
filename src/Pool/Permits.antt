-- ===== src/Pool/Permits.antt =====
-- The semaphore of src/resource_pool.rs, one call after another: a permit is taken by `acquire` and
-- given back when `acquire` returns, not when the guard is dropped. The semaphore of the tokio crate is
-- a record of what is used of it; while no other call is in progress nobody gives a permit back, so a
-- request for one that is not there ends by the timeout.
use snp.Prelude.{
  ℕ, zero, suc, ◌≡◌, ◌<◌, refl, sym, ap, subst, ◌∙◌, true, false, Bool, Option, none, some, arith,
  if◌then◌else◌, Result, ok, err, Option-cases, inl, inr,
}
use snp.Pool.{
  PooledResource, PoolConfig, PoolError, ResourcePool, granted, timed_out, new, take_healthy,
  hand_out, acquire, return_resource,
}

pub record Semaphore (P : Type 0) : Type 0 where
  pub with_permits : ℕ → P
  pub available_permits : P → ℕ
  pub try_acquire : P → Option P
  pub add_permit : P → P
  pub available_permits-with_permits : (n : ℕ) → available_permits (with_permits n) ≡ n
  pub available_permits-try_acquire :
      (p p' : P) → try_acquire p ≡ some p' → available_permits p ≡ suc (available_permits p')
  pub try_acquire-none : (p : P) → try_acquire p ≡ none → available_permits p ≡ 0
  pub available_permits-add_permit :
      (p : P) → available_permits (add_permit p) ≡ suc (available_permits p)

-- A pool with its semaphore, and the number of the guards that live.
pub record GuardedPool (T P : Type 0) : Type 0 where
  pub pool : ResourcePool T
  pub semaphore : P
  pub guards : ℕ

module _ {T P : Type 0} (S : Semaphore P) where
  unfoldable pub new_guarded : PoolConfig → GuardedPool T P
  unfolding new
  new_guarded config = record {
    pool = new config;
    semaphore = S.with_permits config.max_size;
    guards = 0;
  }

  -- A guard is made where the call is a success.
  abbrev pub with_guard :
      P → GuardedPool T P → ResourcePool T × Result PoolError (PooledResource T) → GuardedPool T P
  with_guard semaphore s (pool, ok p) = record {
    pool = pool;
    semaphore = semaphore;
    guards = suc s.guards;
  }
  with_guard semaphore s (pool, err e) = record {
    pool = pool;
    semaphore = semaphore;
    guards = s.guards;
  }

  unfoldable pub acquire_guarded : ℕ → (T → Bool) → Option T → GuardedPool T P → GuardedPool T P
  unfolding acquire
  acquire_guarded now healthy created s =
      if s.pool.shutdown then s else (elim (S.try_acquire s.semaphore) [
        | none ↦ with_guard s.semaphore s (acquire now timed_out healthy created s.pool)
        | some held ↦ with_guard (S.add_permit held) s (acquire now granted healthy created s.pool)
      ])

  -- The life of a pool that is not shut down.
  pub data Lives (config : PoolConfig) : GuardedPool T P → Type 0 where
    made : Lives config (new_guarded config)
    called :
        {s : GuardedPool T P} (now : ℕ) (healthy : T → Bool) (created : Option T)
        → Lives config s
        → Lives config (acquire_guarded now healthy created s)
    dropped :
        {s : GuardedPool T P} (reset : Option T) (p : PooledResource T) (n : ℕ)
        → s.guards ≡ suc n
        → Lives config s
        → Lives config (record s { pool = return_resource reset p s.pool; guards = n })

  -- Between the calls all permits are there.
  record IsFree (config : PoolConfig) (s : GuardedPool T P) : Type 0 where
    permits : S.available_permits s.semaphore ≡ config.max_size
    is_open : s.pool.shutdown ≡ false
    refused : config.max_size ≡ 0 → s.guards ≡ 0

  shutdown-acquire :
      (now : ℕ) (healthy : T → Bool) (created : Option T) (pool : ResourcePool T)
      → (acquire now granted healthy created pool).0.shutdown ≡ pool.shutdown
  unfolding acquire
  shutdown-acquire now healthy created pool = ground arith

  with_guard-IsFree :
      (config : PoolConfig) (semaphore : P) (s : GuardedPool T P)
      (r : ResourcePool T × Result PoolError (PooledResource T))
      → 0 < config.max_size
      → S.available_permits semaphore ≡ config.max_size
      → r.0.shutdown ≡ false
      → IsFree config (with_guard semaphore s r)
  with_guard-IsFree config semaphore s (pool, ok p) some_permits e open_now = record {
    permits = e;
    is_open = open_now;
    refused = λ z. absurd (omega (arith, z));
  }
  with_guard-IsFree config semaphore s (pool, err x) some_permits e open_now = record {
    permits = e;
    is_open = open_now;
    refused = λ z. absurd (omega (arith, z));
  }

  acquire_guarded-IsFree :
      (config : PoolConfig) (now : ℕ) (healthy : T → Bool) (created : Option T)
      (s : GuardedPool T P)
      → IsFree config s
      → IsFree config (acquire_guarded now healthy created s)
  unfolding acquire_guarded
  acquire_guarded-IsFree config now healthy created s h =
      elim (Option-cases (S.try_acquire s.semaphore)) [
        | inl nothing ↦
            let same : acquire_guarded now healthy created s ≡ s = ground (arith, h.is_open) in
            subst (λ (x : GuardedPool T P). IsFree config x) (sym same) h
        | inr (held, taken) ↦
            let e : acquire_guarded now healthy created s
                ≡ with_guard (S.add_permit held) s (acquire now granted healthy created s.pool) =
              ground (arith, h.is_open) in
            let some_permits : 0 < config.max_size =
              omega (arith, h.permits, S.available_permits-try_acquire s.semaphore held taken) in
            subst (λ (x : GuardedPool T P). IsFree config x) (sym e)
              (with_guard-IsFree config (S.add_permit held) s
                (acquire now granted healthy created s.pool) some_permits
                (omega (
                  arith,
                  h.permits,
                  S.available_permits-try_acquire s.semaphore held taken,
                  S.available_permits-add_permit held,
                ))
                (shutdown-acquire now healthy created s.pool ∙ h.is_open))
      ]

  return_resource-open :
      (reset : Option T) (p : PooledResource T) (pool : ResourcePool T)
      → (return_resource reset p pool).shutdown ≡ pool.shutdown
  unfolding return_resource
  return_resource-open reset p pool = ground arith

  Lives-IsFree : (config : PoolConfig) {s : GuardedPool T P} → Lives config s → IsFree config s
  unfolding new_guarded
  Lives-IsFree config made = record {
    permits = S.available_permits-with_permits config.max_size;
    is_open = refl;
    refused = λ z. refl;
  }
  Lives-IsFree config (called {s} now healthy created life) =
      acquire_guarded-IsFree config now healthy created s (Lives-IsFree config life)
  Lives-IsFree config (dropped {s} reset p n one life) =
      let h = Lives-IsFree config life in
      record {
        permits = h.permits;
        is_open = return_resource-open reset p s.pool ∙ h.is_open;
        refused = λ z. omega (arith, h.refused z, one);
      }

  hand_out-ok :
      (now : ℕ) (t : T) (found : Option (PooledResource T)) (pool : ResourcePool T)
      → (p : PooledResource T) × ((hand_out now (some t) found pool).1 ≡ ok p)
  hand_out-ok now t none pool = (_, refl)
  hand_out-ok now t (some p) pool = (_, refl)

  acquire-ok :
      (now : ℕ) (healthy : T → Bool) (t : T) (pool : ResourcePool T)
      → pool.shutdown ≡ false
      → (p : PooledResource T) × ((acquire now granted healthy (some t) pool).1 ≡ ok p)
  unfolding acquire
  acquire-ok now healthy t pool is_open =
      let r = take_healthy healthy pool.available pool.current_size in
      let (p, e) = hand_out-ok now t r.0 (record pool { available = r.1; current_size = r.2 }) in
      (p, ground arith)

  guards-with_guard :
      (semaphore : P) (s : GuardedPool T P)
      (r : ResourcePool T × Result PoolError (PooledResource T)) (p : PooledResource T)
      → r.1 ≡ ok p
      → (with_guard semaphore s r).guards ≡ suc s.guards
  guards-with_guard semaphore s (pool, ok q) p e = refl
  guards-with_guard semaphore s (pool, err x) p e = absurd (cc)

  -- A call whose creation succeeds makes one guard more.
  guards-acquire_guarded :
      (config : PoolConfig) (now : ℕ) (healthy : T → Bool) (t : T) (s : GuardedPool T P)
      → 0 < config.max_size
      → IsFree config s
      → (acquire_guarded now healthy (some t) s).guards ≡ suc s.guards
  unfolding acquire_guarded
  guards-acquire_guarded config now healthy t s some_permits h =
      elim (Option-cases (S.try_acquire s.semaphore)) [
        | inl nothing ↦
            absurd (omega (arith, h.permits, S.try_acquire-none s.semaphore nothing, some_permits))
        | inr (held, taken) ↦
            let (p, found) = acquire-ok now healthy t s.pool h.is_open in
            let e : acquire_guarded now healthy (some t) s
                ≡ with_guard (S.add_permit held) s (acquire now granted healthy (some t) s.pool) =
              ground (arith, h.is_open) in
            ap (λ (x : GuardedPool T P). x.guards) e
            ∙ guards-with_guard (S.add_permit held) s (acquire now granted healthy (some t) s.pool)
                p found
      ]

  -- With `max_size` 0 there is never a guard.
  never_guarded :
      (config : PoolConfig) (s : GuardedPool T P)
      → config.max_size ≡ 0
      → Lives config s
      → s.guards ≡ 0
  never_guarded config s none_at_all life = (Lives-IsFree config life).refused none_at_all

  -- Unless `max_size` is 0 it does not bound the guards that live: any number of them can, even while
  -- no two calls are in progress at the same time.
  pub acquire_unbounded :
      (config : PoolConfig) (t : T)
      → 0 < config.max_size
      → (n : ℕ) → (s : GuardedPool T P) × Lives config s × (s.guards ≡ n)
  unfolding new_guarded
  acquire_unbounded config t some_permits zero = (new_guarded config, made, refl)
  acquire_unbounded config t some_permits (suc n) =
      let (s, life, e) = acquire_unbounded config t some_permits n in
      (
        acquire_guarded 0 (λ _. true) (some t) s,
        called 0 (λ _. true) (some t) life,
        guards-acquire_guarded config 0 (λ _. true) t s some_permits (Lives-IsFree config life)
            ∙ ap (λ (k : ℕ). suc k) e,
      )
