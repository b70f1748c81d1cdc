-- ===== src/Pool/Steps.antt =====
-- The life of a pool (src/resource_pool.rs) and of the guards that it has handed out.
use snp.Prelude.{
  ℕ, suc, ◌+◌, ◌≡◌, refl, Bool, true, false, [], Option, Result, ok, err, length, arith, ◌∙◌, ap,
  inl, inr, Bool-cases, subst, sym,
}
use snp.Pool.{
  PooledResource, PoolConfig, PoolMaintenance, PoolError, Permit, ResourcePool, new, acquire, stats,
  return_resource, maintain_pool, shut_down,
}
use snp.Pool.Sizes.{
  acquire-IsServed, acquire_shut, return_resource_shut, maintain_pool_shut, return_resource-size,
  maintain_pool-IsMaintained, handed,
}

-- A pool, and how many resources its guards hold.
pub record System (T : Type 0) : Type 0 where
  pub pool : ResourcePool T
  pub in_use : ℕ

-- One call, in full. `acquire` hands out a guard if it succeeds, and a guard that is dropped
-- returns its resource.
pub data Step {T : Type 0} : System T → System T → Type 0 where
  acquired :
      (s : System T) (now : ℕ) (permit : Permit) (healthy : T → Bool) (created : Option T)
      (p : PooledResource T)
      → (acquire now permit healthy created s.pool).1 ≡ ok p
      → Step s
          (record { pool = (acquire now permit healthy created s.pool).0; in_use = suc s.in_use })
  not_acquired :
      (s : System T) (now : ℕ) (permit : Permit) (healthy : T → Bool) (created : Option T)
      (e : PoolError)
      → (acquire now permit healthy created s.pool).1 ≡ err e
      → Step s (record s { pool = (acquire now permit healthy created s.pool).0 })
  dropped :
      (s : System T) (reset : Option T) (p : PooledResource T) (n : ℕ)
      → s.in_use ≡ suc n
      → Step s (record { pool = return_resource reset p s.pool; in_use = n })
  maintained :
      (s : System T) (now : ℕ) (create : ℕ → Option T)
      → Step s (record s { pool = (maintain_pool now create s.pool).0 })
  closed : (s : System T) → Step s (record s { pool = shut_down s.pool })

pub data Reach {T : Type 0} (s : System T) : System T → Type 0 where
  here : Reach s s
  next : {t u : System T} → Reach s t → Step t u → Reach s u

-- While the pool is open its size counts every resource, available or in use; a pool that was
-- shut down has none.
pub record IsCounted {T : Type 0} (s : System T) : Type 0 where
  pub counts : s.pool.shutdown ≡ false → s.pool.current_size ≡ length s.pool.available + s.in_use
  pub emptied : s.pool.shutdown ≡ true → (s.pool.available ≡ []) × (s.pool.current_size ≡ 0)

module _ {T : Type 0} where
  -- A call that leaves a pool that was shut down as it is.
  unchanged :
      (s : System T) (pool : ResourcePool T) (n : ℕ)
      → s.pool.shutdown ≡ true
      → pool ≡ s.pool
      → IsCounted s
      → IsCounted (record { pool = pool; in_use = n })
  unchanged s pool n x e h =
      subst (λ (q : ResourcePool T). IsCounted (record { pool = q; in_use = n })) (sym e)
        (record { counts = λ o. absurd (ground arith); emptied = h.emptied })

  -- A call that leaves an open pool open.
  counted :
      (pool : ResourcePool T) (n : ℕ)
      → pool.shutdown ≡ false
      → pool.current_size ≡ length pool.available + n
      → IsCounted (record { pool = pool; in_use = n })
  counted pool n o e = record { counts = λ _. e; emptied = λ x. absurd (ground arith) }

  Step-IsCounted : {s t : System T} → Step s t → IsCounted s → IsCounted t
  unfolding shut_down
  Step-IsCounted (acquired s now permit healthy created p r) h = elim (Bool-cases s.pool.shutdown) [
    | inl x ↦
        unchanged s _ _ x
          (ap (λ (r : ResourcePool T × Result PoolError (PooledResource T)). r.0)
            (acquire_shut now permit healthy created s.pool x))
          h
    | inr o ↦
        let w = acquire-IsServed now permit healthy created s.pool s.in_use (h.counts o) in
        counted _ _ (w.open_still ∙ o) (omega (arith, w.size, ap (handed {T = T}) r))
  ]
  Step-IsCounted (not_acquired s now permit healthy created e r) h =
      elim (Bool-cases s.pool.shutdown) [
        | inl x ↦
            unchanged s _ _ x
              (ap (λ (r : ResourcePool T × Result PoolError (PooledResource T)). r.0)
                (acquire_shut now permit healthy created s.pool x))
              h
        | inr o ↦
            let w = acquire-IsServed now permit healthy created s.pool s.in_use (h.counts o) in
            counted _ _ (w.open_still ∙ o) (omega (arith, w.size, ap (handed {T = T}) r))
      ]
  Step-IsCounted (dropped s reset p n e) h = elim (Bool-cases s.pool.shutdown) [
    | inl x ↦ unchanged s _ _ x (return_resource_shut reset p s.pool x) h
    | inr o ↦
        let (a, b) = return_resource-size reset p s.pool n o (omega (arith, h.counts o, e)) in
        counted _ _ b a
  ]
  Step-IsCounted (maintained s now create) h = elim (Bool-cases s.pool.shutdown) [
    | inl x ↦
        unchanged s _ _ x
          (ap (λ (r : ResourcePool T × Result PoolError PoolMaintenance). r.0)
            (maintain_pool_shut now create s.pool x))
          h
    | inr o ↦
        let w = maintain_pool-IsMaintained now create s.pool s.in_use o (h.counts o) in
        counted _ _ w.open_still w.size
  ]
  Step-IsCounted (closed s) h = record {
    counts = λ o. absurd (ground arith);
    emptied = λ _. (refl, refl);
  }

  abbrev pub start : PoolConfig → System T
  start config = record { pool = new config; in_use = 0 }

  -- From a new pool, over any sequence of calls, the size of the pool counts exactly the available
  -- resources and those that the living guards hold while the pool is open, and a pool that was
  -- shut down stays empty.
  pub Reach-IsCounted : (config : PoolConfig) (s : System T) → Reach (start config) s → IsCounted s
  unfolding new
  Reach-IsCounted config s here = record {
    counts = λ _. refl;
    emptied = λ x. absurd (ground arith);
  }
  Reach-IsCounted config s (next {t} before step) =
      Step-IsCounted step (Reach-IsCounted config t before)

  -- On every reachable system whose pool is open, `stats` reports as in use as many resources as
  -- there are living guards.
  pub stats-in_use :
      (config : PoolConfig) (s : System T)
      → Reach (start config) s
      → s.pool.shutdown ≡ false
      → (stats s.pool).in_use_resources ≡ s.in_use
  unfolding stats
  stats-in_use config s r o = omega (arith, (Reach-IsCounted config s r).counts o)
