-- ===== src/Pool/Tests.antt =====
-- A pool of src/resource_pool.rs that lends one resource.
use snp.Prelude.{ℕ, zero, suc, ◌≡◌, refl, true, false, Option, none, some, arith}
use snp.Pool.{PoolConfig, granted, new, take_healthy, acquire, maintain_pool, stats}
use snp.Pool.Permits.{Semaphore, GuardedPool, Lives, acquire_unbounded}
use snp.Pool.Sizes.{IsMaintained, maintain_pool-IsMaintained}
use snp.Pool.Steps.{
  System, Reach, here, next, acquired, start, IsCounted, Reach-IsCounted, stats-in_use,
}

abbrev config : PoolConfig
config = record { min_size = 2; max_size = 1; acquire_timeout = 30; idle_timeout = 300 }

abbrev lent : System ℕ
lent = record { pool = (acquire 5 granted (λ _. true) (some 7) (start config).pool).0; in_use = 1 }

lent-Reach : Reach (start config) lent
unfolding new acquire take_healthy
lent-Reach = next here (acquired (start config) 5 granted (λ _. true) (some 7) _ refl)

lent_open : lent.pool.shutdown ≡ false
unfolding new acquire take_healthy
lent_open = refl

Reach-IsCounted_example : IsCounted lent
Reach-IsCounted_example = Reach-IsCounted config lent lent-Reach

stats-in_use_case : (stats lent.pool).in_use_resources ≡ 1
stats-in_use_case = stats-in_use config lent lent-Reach lent_open

maintain_pool-IsMaintained_example :
    IsMaintained lent.pool 1 (maintain_pool 9 (λ n. some n) lent.pool)
unfolding new acquire take_healthy
maintain_pool-IsMaintained_example =
    maintain_pool-IsMaintained 9 (λ n. some n) lent.pool 1 refl refl

-- A semaphore as a number.
abbrev one_less : ℕ → Option ℕ
one_less zero = none
one_less (suc n) = some n

one_less-some : (p p' : ℕ) → one_less p ≡ some p' → p ≡ suc p'
one_less-some zero p' e = absurd (cc)
one_less-some (suc n) p' e = ground arith

one_less-none : (p : ℕ) → one_less p ≡ none → p ≡ 0
one_less-none zero e = refl
one_less-none (suc n) e = absurd (cc)

abbrev counter : Semaphore ℕ
counter = record {
  with_permits = λ n. n;
  available_permits = λ n. n;
  try_acquire = one_less;
  add_permit = λ n. suc n;
  available_permits-with_permits = λ n. refl;
  available_permits-try_acquire = one_less-some;
  try_acquire-none = one_less-none;
  available_permits-add_permit = λ n. refl;
}

-- Three guards of a pool for one.
acquire_unbounded_example : (s : GuardedPool ℕ ℕ) × Lives counter config s × (s.guards ≡ 3)
acquire_unbounded_example = acquire_unbounded counter config 7 (omega arith) 3
