-- ===== src/Cache/Tiers.antt =====
-- `MultiTierCache` of src/cache.rs, one call at a time. The third tier's operations do nothing in
-- the source; `access_counts` is left out, since nothing writes to it. The clock is an argument.
pub mod Fresh
pub mod Kept
pub mod Lookup
pub mod Bound
pub mod Room
use snp.Prelude.{
  ℕ, ◌+◌, ◌*◌, Bool, true, false, List, [], ◌∷◌, Option, none, some, PartialEq, ◌==◌, if◌then◌else◌,
  leb, ltb,
}
use snp.Prelude.Map
use snp.Cache.{CacheConfig, CacheEntry, CacheTier, CacheMetrics, new_entry, accessed, no_metrics}
use snp.Cache.Stores.{DashMap, LruCache}

-- The entry that was accessed first, the earliest one in the order of the entries.
abbrev pub older : {K V : Type 0} → K × CacheEntry V → Option (K × ℕ) → Option (K × ℕ)
older (k, x) none = some (k, x.last_accessed)
older (k, x) (some (j, t)) =
    if ltb x.last_accessed t then some (k, x.last_accessed) else some (j, t)

abbrev pub oldest : {K V : Type 0} → List (K × CacheEntry V) → Option (K × ℕ) → Option (K × ℕ)
oldest [] best = best
oldest (x ∷ xs) best = oldest xs (older x best)

-- The keys of the entries made before the cutoff, `now - max_age`.
abbrev pub expired : {V : Type 0} → ℕ → ℕ → CacheEntry V → Bool
expired now max_age x = ltb (x.created_at + max_age) now

abbrev pub expired_keys : {K V : Type 0} → ℕ → ℕ → List (K × CacheEntry V) → List K
expired_keys now max_age [] = []
expired_keys now max_age ((k, x) ∷ xs) =
    let rest = expired_keys now max_age xs in if expired now max_age x then k ∷ rest else rest

abbrev pub is_stored : {A : Type 0} → Option A → Bool
is_stored none = false
is_stored (some _) = true

-- The stub `get_from_l3`.
abbrev pub get_from_l3 : {K V : Type 0} → K → Option V
get_from_l3 key = none

-- The stub `exists_in_l3`.
abbrev pub exists_in_l3 : {K : Type 0} → K → Bool
exists_in_l3 key = false

module _ {K V : Type 0} ⦃e : PartialEq K⦄ (D : DashMap K (CacheEntry V))
    (L : LruCache K (CacheEntry V)) where
  pub record MultiTierCache : Type 0 where
    pub l1_cache : D.Store
    pub l2_cache : L.Store
    pub config : CacheConfig
    pub metrics : CacheMetrics

  -- The source panics where `l2_max_entries` is 0; here that configuration has a cache too.
  unfoldable pub with_config : CacheConfig → MultiTierCache
  with_config config = record {
    l1_cache = D.new;
    l2_cache = L.new config.l2_max_entries;
    config = config;
    metrics = no_metrics;
  }

  -- A change of the counters, where they are enabled.
  abbrev pub measure : (CacheMetrics → CacheMetrics) → MultiTierCache → MultiTierCache
  measure f c = record c { metrics = if c.config.metrics_enabled then f c.metrics else c.metrics }

  abbrev pub find_lru_in_l1 : MultiTierCache → Option (K × ℕ)
  find_lru_in_l1 c = oldest (D.entries c.l1_cache) none

  abbrev pub count_eviction : Option (K × CacheEntry V) → CacheMetrics → CacheMetrics
  count_eviction none m = record m { l1_evictions = m.l1_evictions + 1 }
  count_eviction (some _) m = record m {
    l1_evictions = m.l1_evictions + 1;
    l2_evictions = m.l2_evictions + 1;
  }

  unfoldable pub demote_to_l2 : K → CacheEntry V → MultiTierCache → MultiTierCache
  demote_to_l2 key x c =
      let pushed = L.push key x c.l2_cache in
      measure (count_eviction pushed.0) (record c { l2_cache = pushed.1 })

  abbrev pub evict_key : Option (CacheEntry V) → K → MultiTierCache → MultiTierCache
  evict_key none key c = c
  evict_key (some x) key c = demote_to_l2 key x (record c { l1_cache = D.remove key c.l1_cache })

  abbrev pub evict_lru : Option (K × ℕ) → MultiTierCache → MultiTierCache
  evict_lru none c = c
  evict_lru (some (key, t)) c = evict_key (D.get key c.l1_cache) key c

  -- The first lines of `put` and of `promote_to_l1`.
  unfoldable pub make_room : MultiTierCache → MultiTierCache
  make_room c =
      if leb c.config.l1_max_entries (D.len c.l1_cache) then evict_lru (find_lru_in_l1 c) c else c

  unfoldable pub put : ℕ → K → V → MultiTierCache → MultiTierCache
  put now key value c =
      let c' = make_room c in
      record c' { l1_cache = D.insert key (new_entry now value) c'.l1_cache }

  unfoldable pub promote_to_l1 : K → CacheEntry V → MultiTierCache → MultiTierCache
  promote_to_l1 key x c =
      let c' = make_room c in
      measure (λ m. record m { l2_to_l1_promotions = m.l2_to_l1_promotions + 1 })
        (record c' { l1_cache = D.insert key x c'.l1_cache })

  abbrev pub count_push : Option (K × CacheEntry V) → CacheMetrics → CacheMetrics
  count_push none m = m
  count_push (some _) m = record m { l2_evictions = m.l2_evictions + 1 }

  unfoldable pub promote_to_l2 : ℕ → K → V → MultiTierCache → MultiTierCache
  promote_to_l2 now key value c =
      let pushed = L.push key (new_entry now value) c.l2_cache in
      measure (count_push pushed.0) (record c { l2_cache = pushed.1 })

  abbrev pub pop_l2 : K → MultiTierCache → MultiTierCache
  pop_l2 key c = record c { l2_cache = L.pop key c.l2_cache }

  abbrev pub get_l3 : ℕ → K → Option V → MultiTierCache → MultiTierCache × Option V
  get_l3 now key (some value) c = (
    measure
        (λ m. record m {
          l3_hits = m.l3_hits + 1;
          total_hits = m.total_hits + 1;
          l3_to_l2_promotions = m.l3_to_l2_promotions + 1;
        })
        (promote_to_l2 now key value c),
    some value,
  )
  get_l3 now key none c = (measure (λ m. record m { total_misses = m.total_misses + 1 }) c, none)

  abbrev pub ask_l3 : K → MultiTierCache → Option V
  ask_l3 key c = if c.config.enable_l3_persistence then get_from_l3 key else none

  -- The promotion behind a hit in the second tier.
  abbrev pub hit_l2 : K → CacheEntry V → MultiTierCache → MultiTierCache
  hit_l2 key x c =
      if leb c.config.promotion_threshold x.access_count
      then pop_l2 key (promote_to_l1 key x c)
      else c

  abbrev pub get_l2 : ℕ → K → Option (CacheEntry V) → MultiTierCache → MultiTierCache × Option V
  get_l2 now key (some x) c =
      let x' = accessed now x in
      (
        measure (λ m. record m { l2_hits = m.l2_hits + 1; total_hits = m.total_hits + 1 })
            (hit_l2 key x' (record c { l2_cache = L.update key x' c.l2_cache })),
        some x.value,
      )
  get_l2 now key none c = get_l3 now key (ask_l3 key c) c

  abbrev pub get_l1 : ℕ → K → Option (CacheEntry V) → MultiTierCache → MultiTierCache × Option V
  get_l1 now key (some x) c = (
    measure (λ m. record m { l1_hits = m.l1_hits + 1; total_hits = m.total_hits + 1 })
        (record c { l1_cache = D.insert key (accessed now x) c.l1_cache }),
    some x.value,
  )
  get_l1 now key none c = get_l2 now key (L.peek key c.l2_cache) c

  unfoldable pub get : ℕ → K → MultiTierCache → MultiTierCache × Option V
  get now key c = get_l1 now key (D.get key c.l1_cache) c

  unfoldable pub invalidate : K → MultiTierCache → MultiTierCache
  invalidate key c = record c {
    l1_cache = D.remove key c.l1_cache;
    l2_cache = L.pop key c.l2_cache;
  }

  unfoldable pub clear : MultiTierCache → MultiTierCache
  clear c = measure (λ m. no_metrics) (record c { l1_cache = D.new; l2_cache = L.clear c.l2_cache })

  unfoldable pub estimate_memory_usage : MultiTierCache → ℕ
  estimate_memory_usage c = (D.len c.l1_cache + L.len c.l2_cache) * 100

  unfoldable pub get_metrics : MultiTierCache → MultiTierCache × CacheMetrics
  get_metrics c =
      let c' =
        measure
          (λ m. record m {
            l1_size = D.len c.l1_cache;
            l2_size = L.len c.l2_cache;
            l3_size = if c.config.enable_l3_persistence then 0 else m.l3_size;
            memory_usage_bytes = estimate_memory_usage c;
          })
          c in
      (c', if c.config.metrics_enabled then c'.metrics else no_metrics)

  abbrev pub warm_key : ℕ → K → Option V → MultiTierCache → MultiTierCache
  warm_key now key none c = c
  warm_key now key (some value) c = promote_to_l2 now key value c

  abbrev pub warm_keys : ℕ → List K → MultiTierCache → MultiTierCache
  warm_keys now [] c = c
  warm_keys now (k ∷ ks) c = warm_keys now ks (warm_key now k (ask_l3 k c) c)

  unfoldable pub warm_cache : ℕ → List K → MultiTierCache → MultiTierCache
  warm_cache now keys c = if c.config.cache_warming then warm_keys now keys c else c

  abbrev pub remove_all : List K → D.Store → D.Store
  remove_all [] m = m
  remove_all (k ∷ ks) m = remove_all ks (D.remove k m)

  abbrev pub pop_all : List K → L.Store → L.Store
  pop_all [] m = m
  pop_all (k ∷ ks) m = pop_all ks (L.pop k m)

  unfoldable pub evict_older_than : ℕ → ℕ → MultiTierCache → MultiTierCache
  evict_older_than now max_age c = record c {
    l1_cache = remove_all (expired_keys now max_age (D.entries c.l1_cache)) c.l1_cache;
    l2_cache = pop_all (expired_keys now max_age (L.entries c.l2_cache)) c.l2_cache;
  }

  unfoldable pub get_value_tier : K → MultiTierCache → Option CacheTier
  get_value_tier key c =
      if is_stored (D.get key c.l1_cache)
      then some CacheTier.l1
      else (if is_stored (L.peek key c.l2_cache)
          then some CacheTier.l2
          else (if c.config.enable_l3_persistence
              then (if exists_in_l3 key then some CacheTier.l3 else none)
              else none))

  unfoldable pub move_to_l2 : K → MultiTierCache → MultiTierCache
  move_to_l2 key c = evict_key (D.get key c.l1_cache) key c
