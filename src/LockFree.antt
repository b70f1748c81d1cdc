-- ===== src/LockFree.antt =====
-- `LockFreeCache` of src/lock_free_cache.rs over the map of the crate `dashmap`, one call at a time.
-- The argument `now` of a call is the clock in milliseconds as a word of 64 bits; counters are such
-- words. The rates of the statistics, floating-point numbers, are left out.
pub mod Calls
pub mod Bounded
mod Tests
use snp.Prelude.{
  ℕ, ◌+◌, ◌-◌, ◌%◌, Bool, true, false, not, ◌&&◌, if◌then◌else◌, ltb, leb, List, [], ◌∷◌, Option,
  none, some, PartialEq,
}
use snp.Cache.Stores.{DashMap}
use snp.Scheduler.{fetch_add}

pub record CacheEntry (V : Type 0) : Type 0 where
  pub value : V
  pub created_at : ℕ
  pub access_count : ℕ
  pub last_accessed : ℕ

module _ {V : Type 0} where
  unfoldable pub new_entry : (now : ℕ) → V → CacheEntry V
  new_entry now value = record {
    value = value;
    created_at = now;
    access_count = 1;
    last_accessed = now;
  }

  unfoldable pub touch : (now : ℕ) → CacheEntry V → CacheEntry V
  touch now entry = record entry {
    access_count = fetch_add entry.access_count 1;
    last_accessed = now;
  }

-- `u64::MAX`.
abbrev pub u64_max : ℕ
u64_max = 18446744073709551615

abbrev pub is_present : {A : Type 0} → Option A → Bool
is_present none = false
is_present (some a) = true

-- `CacheStats` without its rate.
pub record CacheStats : Type 0 where
  pub hits : ℕ
  pub misses : ℕ
  pub evictions : ℕ
  pub inserts : ℕ
  pub current_size : ℕ
  pub max_size : ℕ

module _ {K V : Type 0} where
  -- The loop of `evict_lru` with its `lru_key` and its `min_timestamp`.
  unfoldable pub find_lru : List (K × CacheEntry V) → Option K → ℕ → Option K
  find_lru [] lru_key min_timestamp = lru_key
  find_lru ((key, entry) ∷ entries) lru_key min_timestamp =
      let older = ltb entry.last_accessed min_timestamp in
      find_lru entries (if older then some key else lru_key)
        (if older then entry.last_accessed else min_timestamp)

  -- The keys that `evict_expired` collects.
  unfoldable pub keys_to_evict : (cutoff : ℕ) → List (K × CacheEntry V) → List K
  keys_to_evict cutoff [] = []
  keys_to_evict cutoff ((key, entry) ∷ entries) =
      let rest = keys_to_evict cutoff entries in
      if ltb entry.created_at cutoff then key ∷ rest else rest

module _ {K V : Type 0} ⦃e : PartialEq K⦄ (D : DashMap K (CacheEntry V)) where
  pub record LockFreeCache : Type 0 where
    pub storage : D.Store
    pub hits : ℕ
    pub misses : ℕ
    pub evictions : ℕ
    pub inserts : ℕ
    pub max_size : ℕ

  unfoldable pub new : ℕ → LockFreeCache
  new max_size = record {
    storage = D.new;
    hits = 0;
    misses = 0;
    evictions = 0;
    inserts = 0;
    max_size = max_size;
  }

  -- `get` for an entry that was looked up; it is touched in its place.
  abbrev pub answer :
      (now : ℕ) → K → Option (CacheEntry V) → LockFreeCache → LockFreeCache × Option V
  answer now key none c = (record c { misses = fetch_add c.misses 1 }, none)
  answer now key (some entry) c = (
    record c { storage = D.insert key (touch now entry) c.storage; hits = fetch_add c.hits 1 },
    some entry.value,
  )

  unfoldable pub get : (now : ℕ) → K → LockFreeCache → LockFreeCache × Option V
  unfolding touch
  get now key c = answer now key (D.get key c.storage) c

  -- The removal of a key that is counted if the key is there.
  unfoldable pub evict : K → LockFreeCache → LockFreeCache
  evict key c = record c {
    storage = D.remove key c.storage;
    evictions = if is_present (D.get key c.storage) then fetch_add c.evictions 1 else c.evictions;
  }

  abbrev pub evict_found : Option K → LockFreeCache → LockFreeCache
  evict_found none c = c
  evict_found (some key) c = evict key c

  unfoldable pub evict_lru : LockFreeCache → LockFreeCache
  unfolding find_lru evict
  evict_lru c = evict_found (find_lru (D.entries c.storage) none u64_max) c

  abbrev pub value_of : Option (CacheEntry V) → Option V
  value_of none = none
  value_of (some entry) = some entry.value

  abbrev pub make_room : K → LockFreeCache → LockFreeCache
  make_room key c =
      if not (is_present (D.get key c.storage)) && leb c.max_size (D.len c.storage)
      then evict_lru c
      else c

  -- The insertion behind the eviction; it returns the value that was there.
  unfoldable pub store : (now : ℕ) → K → V → LockFreeCache → LockFreeCache × Option V
  unfolding new_entry
  store now key value c =
      let old = D.get key c.storage in
      (
        record c {
          storage = D.insert key (new_entry now value) c.storage;
          inserts = if is_present old then c.inserts else fetch_add c.inserts 1;
        },
        value_of old,
      )

  unfoldable pub insert : (now : ℕ) → K → V → LockFreeCache → LockFreeCache × Option V
  unfolding evict_lru store
  insert now key value c = store now key value (make_room key c)

  unfoldable pub remove : K → LockFreeCache → LockFreeCache × Option V
  remove key c = (record c { storage = D.remove key c.storage }, value_of (D.get key c.storage))

  unfoldable pub contains_key : K → LockFreeCache → Bool
  contains_key key c = is_present (D.get key c.storage)

  unfoldable pub clear : LockFreeCache → LockFreeCache
  clear c = record c { storage = D.new }

  unfoldable pub stats : LockFreeCache → CacheStats
  stats c = record {
    hits = c.hits;
    misses = c.misses;
    evictions = c.evictions;
    inserts = c.inserts;
    current_size = D.len c.storage;
    max_size = c.max_size;
  }

  unfoldable pub reset_stats : LockFreeCache → LockFreeCache
  reset_stats c = record c { hits = 0; misses = 0; evictions = 0; inserts = 0 }

  abbrev pub or_compute : (now : ℕ) → K → V → LockFreeCache × Option V → LockFreeCache × V
  or_compute now key computed (c, some value) = (c, value)
  or_compute now key computed (c, none) = ((insert now key computed c).0, computed)

  -- `computed` is what the function gives when it is called.
  unfoldable pub get_or_compute : (now : ℕ) → K → (computed : V) → LockFreeCache → LockFreeCache × V
  unfolding get insert
  get_or_compute now key computed c = or_compute now key computed (get now key c)

  unfoldable pub insert_bulk : (now : ℕ) → List (K × V) → LockFreeCache → LockFreeCache
  unfolding insert
  insert_bulk now [] c = c
  insert_bulk now ((key, value) ∷ entries) c = insert_bulk now entries (insert now key value c).0

  unfoldable pub evict_all : List K → LockFreeCache → LockFreeCache
  unfolding evict
  evict_all [] c = c
  evict_all (key ∷ keys) c = evict_all keys (evict key c)

  -- `now.saturating_sub(max_age_millis)` is the cutoff.
  unfoldable pub evict_expired : (now max_age_millis : ℕ) → LockFreeCache → LockFreeCache
  unfolding keys_to_evict evict_all
  evict_expired now max_age_millis c =
      evict_all (keys_to_evict (now - max_age_millis) (D.entries c.storage)) c
