-- ===== src/Cache/Calls.antt =====
-- A sequence of calls on the cache of src/cache.rs, and the map that a caller has in mind. Each
-- call comes some time after the one before it.
pub mod Bounded
use snp.Prelude.{
  ℕ, ◌+◌, ◌≡◌, ◌≤◌, refl, Bool, true, false, List, [], ◌∷◌, Option, none, some, PartialEq, ◌==◌,
  ==_refl, if◌then◌else◌, arith,
}
use snp.Cache.{CacheConfig, CacheEntry, new_entry}
use snp.Cache.Stores.{DashMap, LruCache}
use snp.Cache.Tiers
use snp.Cache.Tiers.{MultiTierCache, with_config, make_room}
use snp.Cache.Tiers.Kept.{
  IsFresh, put_latest, drop_latest, with_config-IsFresh, later-IsFresh, put-IsFresh,
  invalidate-IsFresh, clear-IsFresh, move_to_l2-IsFresh, evict_older_than-IsFresh,
}
use snp.Cache.Tiers.Lookup.{IsLatest, Answers, get-Answers, warm_cache-IsFresh}

pub data Call (K V : Type 0) : Type 0 where
  get : (key : K) → Call K V
  put : (key : K) (value : V) → Call K V
  invalidate : (key : K) → Call K V
  clear : Call K V
  get_metrics : Call K V
  warm_cache : (keys : List K) → Call K V
  evict_older_than : (max_age : ℕ) → Call K V
  move_to_l2 : (key : K) → Call K V

module _ {K V : Type 0} ⦃e : PartialEq K⦄ where
  -- The map after a call.
  abbrev pub replay : Call K V → (K → Option V) → K → Option V
  replay (put key value) latest k = if key == k then some value else latest k
  replay (invalidate key) latest k = if key == k then none else latest k
  replay clear latest k = none
  replay _ latest k = latest k

  -- What the map says to a call.
  abbrev pub expect : Call K V → (K → Option V) → Option V
  expect (get key) latest = latest key
  expect _ latest = none

  abbrev pub expected : List (ℕ × Call K V) → (K → Option V) → List (Option V)
  expected [] latest = []
  expected ((delay, call) ∷ calls) latest = expect call latest ∷ expected calls (replay call latest)

-- As many answers as the map gives, and each is none or the map's.
abbrev pub AreLatest : {V : Type 0} → List (Option V) → List (Option V) → Type 0
AreLatest [] [] = Unit
AreLatest (x ∷ xs) (a ∷ rest) = IsLatest x a × AreLatest xs rest
AreLatest _ _ = ⊥

module _ {K V : Type 0} ⦃e : PartialEq K⦄ (D : DashMap K (CacheEntry V))
    (L : LruCache K (CacheEntry V)) where
  abbrev pub perform : ℕ → Call K V → MultiTierCache D L → MultiTierCache D L × Option V
  perform now (get key) c = Tiers.get D L now key c
  perform now (put key value) c = (Tiers.put D L now key value c, none)
  perform now (invalidate key) c = (Tiers.invalidate D L key c, none)
  perform now clear c = (Tiers.clear D L c, none)
  perform now get_metrics c = ((Tiers.get_metrics D L c).0, none)
  perform now (warm_cache keys) c = (Tiers.warm_cache D L now keys c, none)
  perform now (evict_older_than max_age) c = (Tiers.evict_older_than D L now max_age c, none)
  perform now (move_to_l2 key) c = (Tiers.move_to_l2 D L key c, none)

  unfoldable pub answers : ℕ → List (ℕ × Call K V) → MultiTierCache D L → List (Option V)
  answers now [] c = []
  answers now ((delay, call) ∷ calls) c =
      let r = perform (now + delay) call c in r.1 ∷ answers (now + delay) calls r.0

  unfoldable pub after : ℕ → List (ℕ × Call K V) → MultiTierCache D L → MultiTierCache D L
  after now [] c = c
  after now ((delay, call) ∷ calls) c = after (now + delay) calls (perform (now + delay) call c).0

  perform-IsFresh :
      (now : ℕ) (latest : K → Option V) (call : Call K V) (c : MultiTierCache D L)
      → IsFresh D L now latest c
      → let r = perform now call c in
        IsFresh D L now (replay call latest) r.0 × IsLatest (expect call latest) r.1
  unfolding Tiers.get_metrics
  perform-IsFresh now latest (get key) c h = get-Answers D L now now latest key c h
  perform-IsFresh now latest (put key value) c h = (put-IsFresh D L now latest key value c h, tt)
  perform-IsFresh now latest (invalidate key) c h = (invalidate-IsFresh D L now latest key c h, tt)
  perform-IsFresh now latest clear c h = (clear-IsFresh D L now c, tt)
  perform-IsFresh now latest get_metrics c h = (h, tt)
  perform-IsFresh now latest (warm_cache keys) c h =
      (warm_cache-IsFresh D L now now latest keys c h, tt)
  perform-IsFresh now latest (evict_older_than max_age) c h =
      (evict_older_than-IsFresh D L now max_age latest c h, tt)
  perform-IsFresh now latest (move_to_l2 key) c h = (move_to_l2-IsFresh D L now latest key c h, tt)

  answers-AreLatest :
      (now : ℕ) (latest : K → Option V) (calls : List (ℕ × Call K V)) (c : MultiTierCache D L)
      → IsFresh D L now latest c
      → AreLatest (expected calls latest) (answers now calls c)
  unfolding answers
  answers-AreLatest now latest [] c h = tt
  answers-AreLatest now latest ((delay, call) ∷ calls) c h =
      let step =
        perform-IsFresh (now + delay) latest call c
          (later-IsFresh D L now (now + delay) latest c (omega arith) h) in
      (step.1, answers-AreLatest (now + delay) (replay call latest) calls _ step.0)

  -- With maps that keep the laws of Cache/Stores, over any calls on a new cache of any
  -- configuration, the cache stands for a map from keys to the values put last: every answer of
  -- `get` is that value or none, never an older one, through every move between the tiers, every
  -- eviction and every expiry.
  pub new_cache-AreLatest :
      (config : CacheConfig) (calls : List (ℕ × Call K V))
      → AreLatest (expected calls (λ k. none)) (answers 0 calls (with_config D L config))
  new_cache-AreLatest config calls =
      answers-AreLatest 0 (λ k. none) calls (with_config D L config)
        (with_config-IsFresh D L config)

  -- With maps that keep the laws of Cache/Stores: a value that was put is there at the next call of
  -- `get` for its key, at any time and with tiers of any contents and sizes.
  pub get-put :
      (now t : ℕ) (key : K) (value : V) (c : MultiTierCache D L)
      → (Tiers.get D L t key (Tiers.put D L now key value c)).1 ≡ some value
  unfolding Tiers.get Tiers.put
  get-put now t key value c =
      rw (D.get-insert key key (new_entry now value) (make_room D L c).l1_cache, ==_refl key) refl
