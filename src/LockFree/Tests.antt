-- ===== src/LockFree/Tests.antt =====
-- A cache of two numbers in src/lock_free_cache.rs.
use snp.Prelude.{ℕ, ◌+◌, ◌%◌, ◌≡◌, ◌≤◌, refl, arith, List, [], ◌∷◌, String, string_eq, length}
use snp.Prelude.Map
use snp.Cache.Stores.{DashMap}
use snp.Cache.Example.{list_store}
use snp.LockFree
use snp.LockFree.{CacheEntry, LockFreeCache}
use snp.LockFree.Calls.{
  Call, get_call, insert_call, get_or_compute_call, evict_expired_call, AreInTime, after,
  lock_free_cache-bounded, lock_free_cache-counted,
}

abbrev strings : DashMap String (CacheEntry ℕ)
strings = list_store (CacheEntry ℕ)

abbrev calls : List (ℕ × Call String ℕ)
calls =
    (10, insert_call "a" 1)
    ∷ (20, insert_call "b" 2)
    ∷ (30, get_call "a")
    ∷ (40, insert_call "c" 3)
    ∷ (50, get_call "b")
    ∷ (60, get_or_compute_call "d" 4)
    ∷ (70, evict_expired_call 15)
    ∷ []

-- The entry "b" is the least recently used, then "a".
calls_run : Map.keys (after strings calls (LockFree.new strings 2)).storage.0 ≡ "d" ∷ []
unfolding after LockFree.new Map.get Map.insert Map.remove
calls_run = refl

calls_in_time : AreInTime calls
calls_in_time = omega arith

lock_free_cache-bounded_example :
    length (after strings calls (LockFree.new strings 2)).storage.0 ≤ 2
lock_free_cache-bounded_example = lock_free_cache-bounded strings 2 calls calls_in_time

lock_free_cache-counted_example :
    ((after strings calls (LockFree.new strings 2)).hits
        + (after strings calls (LockFree.new strings 2)).misses)
      % 18446744073709551616
    ≡ 3 % 18446744073709551616
lock_free_cache-counted_example = lock_free_cache-counted strings 2 calls
