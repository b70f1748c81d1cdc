-- ===== src/Cache/Calls/Bounded.antt =====
-- The first tier of src/cache.rs over a sequence of calls.
use snp.Prelude.{ℕ, ◌+◌, ◌≤◌, max, List, [], ◌∷◌, PartialEq}
use snp.Cache.{CacheConfig, CacheEntry}
use snp.Cache.Stores.{DashMap, LruCache}
use snp.Cache.Tiers
use snp.Cache.Tiers.{MultiTierCache, with_config}
use snp.Cache.Tiers.Room.{
  IsBounded, with_config-IsBounded, get-IsBounded, put-IsBounded, invalidate-IsBounded,
  clear-IsBounded, warm_cache-IsBounded, evict_older_than-IsBounded, move_to_l2-IsBounded,
}
use snp.Cache.Calls.{
  Call, get, put, invalidate, clear, get_metrics, warm_cache, evict_older_than, move_to_l2, perform,
  after,
}

module _ {K V : Type 0} ⦃e : PartialEq K⦄ (D : DashMap K (CacheEntry V))
    (L : LruCache K (CacheEntry V)) where
  perform-IsBounded :
      (most now : ℕ) (call : Call K V) (c : MultiTierCache D L)
      → IsBounded D L most c
      → IsBounded D L most (perform D L now call c).0
  unfolding Tiers.get_metrics
  perform-IsBounded most now (get key) c h = get-IsBounded D L most now key c h
  perform-IsBounded most now (put key value) c h = put-IsBounded D L most now key value c h
  perform-IsBounded most now (invalidate key) c h = invalidate-IsBounded D L most key c h
  perform-IsBounded most now clear c h = clear-IsBounded D L most c h
  perform-IsBounded most now get_metrics c h = h
  perform-IsBounded most now (warm_cache keys) c h = warm_cache-IsBounded D L most now keys c h
  perform-IsBounded most now (evict_older_than max_age) c h =
      evict_older_than-IsBounded D L most now max_age c h
  perform-IsBounded most now (move_to_l2 key) c h = move_to_l2-IsBounded D L most key c h

  after-IsBounded :
      (most now : ℕ) (calls : List (ℕ × Call K V)) (c : MultiTierCache D L)
      → IsBounded D L most c
      → IsBounded D L most (after D L now calls c)
  unfolding after
  after-IsBounded most now [] c h = h
  after-IsBounded most now ((delay, call) ∷ calls) c h =
      after-IsBounded most (now + delay) calls _ (perform-IsBounded most (now + delay) call c h)

  -- With maps that keep the laws of Cache/Stores, over any calls on a new cache, the first tier
  -- holds no more entries than `l1_max_entries`, or than one where that is zero.
  pub new_cache-bounded :
      (config : CacheConfig) (calls : List (ℕ × Call K V))
      → D.len (after D L 0 calls (with_config D L config)).l1_cache ≤ max 1 config.l1_max_entries
  new_cache-bounded config calls =
      (after-IsBounded config.l1_max_entries 0 calls (with_config D L config)
        (with_config-IsBounded D L config)).1
