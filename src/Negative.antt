-- ===== src/Negative.antt =====
-- `NegativeCache` of src/negative_cache.rs, one call at a time. The Bloom filter is that of the
-- `bloom` crate, by its documented behaviour; rates are parameters. The counters do not overflow.
pub mod Calls
mod Tests
use Prim.Native.String.{len}
use snp.Prelude.{
  ℕ, ◌+◌, ◌*◌, ◌/◌, ◌%◌, ◌^◌, ◌≡◌, Bool, true, false, List, [], ◌∷◌, String, string_eq,
  if◌then◌else◌, length, contains, ltb, leb,
}

pub record BloomFilter (Rate : Type 0) : Type 1 where
  pub Filter : Type 0
  pub with_rate : Rate → ℕ → Filter
  pub insert : String → Filter → Filter
  pub contains : String → Filter → Bool
  pub num_bits : Filter → ℕ
  pub contains-with_rate :
      (k : String) (rate : Rate) (n : ℕ) → contains k (with_rate rate n) ≡ false
  pub contains-insert : (k : String) (f : Filter) → contains k (insert k f) ≡ true
  pub contains-insert_old :
      (k j : String) (f : Filter) → contains k f ≡ true → contains k (insert j f) ≡ true

pub record NegativeCacheConfig (Rate : Type 0) : Type 0 where
  pub enabled : Bool
  pub false_positive_rate : Rate
  pub expected_entries : ℕ
  pub max_confirmed_entries : ℕ
  pub reset_interval : ℕ
  pub persistence_enabled : Bool

pub record NegativeCacheMetrics (Rate : Type 0) : Type 0 where
  pub bloom_checks : ℕ
  pub confirmed_checks : ℕ
  pub recorded_misses : ℕ
  pub confirmed_misses : ℕ
  pub false_positive_rate : Rate
  pub memory_usage_bytes : ℕ
  pub cache_resets : ℕ

-- `HashSet::insert`.
abbrev pub insert_key : String → List String → List String
insert_key key keys = if contains keys key then keys else key ∷ keys

-- The bytes of the keys, with 24 for each.
abbrev pub key_bytes : List String → ℕ
key_bytes [] = 0
key_bytes (k ∷ ks) = len k + 24 + key_bytes ks

module _ {Rate : Type 0} (B : BloomFilter Rate) where
  pub record NegativeCache : Type 0 where
    pub bloom_filter : B.Filter
    pub confirmed_misses : List String
    pub config : NegativeCacheConfig Rate
    pub bloom_checks : ℕ
    pub confirmed_checks : ℕ
    pub recorded_misses : ℕ
    pub cache_resets : ℕ

  -- `expected_entries as u32`.
  abbrev pub new_filter : NegativeCacheConfig Rate → B.Filter
  new_filter config = B.with_rate config.false_positive_rate (config.expected_entries % 2 ^ 32)

  unfoldable pub with_config : NegativeCacheConfig Rate → NegativeCache
  with_config config = record {
    bloom_filter = new_filter config;
    confirmed_misses = [];
    config = config;
    bloom_checks = 0;
    confirmed_checks = 0;
    recorded_misses = 0;
    cache_resets = 0;
  }

  unfoldable pub probably_absent : String → NegativeCache → NegativeCache × Bool
  probably_absent key c =
      (record c { bloom_checks = c.bloom_checks + 1 }, B.contains key c.bloom_filter)

  unfoldable pub definitely_absent : String → NegativeCache → NegativeCache × Bool
  definitely_absent key c =
      (record c { confirmed_checks = c.confirmed_checks + 1 }, contains c.confirmed_misses key)

  unfoldable pub record_miss : String → NegativeCache → NegativeCache
  record_miss key c = record c {
    recorded_misses = c.recorded_misses + 1;
    bloom_filter = B.insert key c.bloom_filter;
    confirmed_misses =
        if ltb (length c.confirmed_misses) c.config.max_confirmed_entries
        then insert_key key c.confirmed_misses
        else c.confirmed_misses;
  }

  unfoldable pub reset : NegativeCache → NegativeCache
  reset c = record c {
    cache_resets = c.cache_resets + 1;
    bloom_filter = new_filter c.config;
    confirmed_misses = [];
    bloom_checks = 0;
    confirmed_checks = 0;
    recorded_misses = 0;
  }

  unfoldable pub estimate_memory_usage : NegativeCache → ℕ
  estimate_memory_usage c =
      (B.num_bits c.bloom_filter + 7) / 8 + key_bytes c.confirmed_misses + 1024

  unfoldable pub get_metrics : NegativeCache → NegativeCacheMetrics Rate
  get_metrics c = record {
    bloom_checks = c.bloom_checks;
    confirmed_checks = c.confirmed_checks;
    recorded_misses = c.recorded_misses;
    confirmed_misses = length c.confirmed_misses;
    false_positive_rate = c.config.false_positive_rate;
    memory_usage_bytes = estimate_memory_usage c;
    cache_resets = c.cache_resets;
  }

  unfoldable pub confirmed_cache_full : NegativeCache → Bool
  confirmed_cache_full c = leb c.config.max_confirmed_entries (length c.confirmed_misses)
