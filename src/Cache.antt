-- ===== src/Cache.antt =====
-- The entries, the settings and the counters of the cache of src/cache.rs. Times are numbers.
pub mod Stores
pub mod Tiers
pub mod Calls
mod Tests
pub mod Example
use snp.Prelude.{ℕ, ◌+◌, Bool, true}

pub record CacheConfig : Type 0 where
  pub l1_max_entries : ℕ
  pub l2_max_entries : ℕ
  pub promotion_threshold : ℕ
  pub enable_l3_persistence : Bool
  pub cache_warming : Bool
  pub metrics_enabled : Bool

unfoldable pub default : CacheConfig
default = record {
  l1_max_entries = 1000;
  l2_max_entries = 10_000;
  promotion_threshold = 3;
  enable_l3_persistence = true;
  cache_warming = true;
  metrics_enabled = true;
}

pub data CacheTier : Type 0 where
  l1 l2 l3 : CacheTier

pub record CacheEntry (V : Type 0) : Type 0 where
  pub value : V
  pub access_count : ℕ
  pub last_accessed : ℕ
  pub created_at : ℕ

abbrev pub new_entry : {V : Type 0} → ℕ → V → CacheEntry V
new_entry now value = record {
  value = value;
  access_count = 1;
  last_accessed = now;
  created_at = now;
}

abbrev pub accessed : {V : Type 0} → ℕ → CacheEntry V → CacheEntry V
accessed now e = record e { access_count = e.access_count + 1; last_accessed = now }

pub record CacheMetrics : Type 0 where
  pub l1_size : ℕ
  pub l2_size : ℕ
  pub l3_size : ℕ
  pub l1_hits : ℕ
  pub l2_hits : ℕ
  pub l3_hits : ℕ
  pub total_hits : ℕ
  pub total_misses : ℕ
  pub l2_to_l1_promotions : ℕ
  pub l3_to_l2_promotions : ℕ
  pub l1_evictions : ℕ
  pub l2_evictions : ℕ
  pub memory_usage_bytes : ℕ

abbrev pub no_metrics : CacheMetrics
no_metrics = record {
  l1_size = 0;
  l2_size = 0;
  l3_size = 0;
  l1_hits = 0;
  l2_hits = 0;
  l3_hits = 0;
  total_hits = 0;
  total_misses = 0;
  l2_to_l1_promotions = 0;
  l3_to_l2_promotions = 0;
  l1_evictions = 0;
  l2_evictions = 0;
  memory_usage_bytes = 0;
}
