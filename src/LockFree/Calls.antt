-- ===== src/LockFree/Calls.antt =====
-- Calls of the cache of src/lock_free_cache.rs, one after another.
use snp.Prelude.{
  ℕ, ◌+◌, ◌-◌, ◌%◌, ◌≡◌, ◌≤◌, ◌<◌, max, refl, ◌∙◌, arith, not, ◌&&◌, if_ind, List, [], ◌∷◌, Option,
  none, some, PartialEq, leb,
}
use snp.Cache.Stores.{DashMap}
use snp.Scheduler.{word}
use snp.LockFree
use snp.LockFree.{
  CacheEntry, LockFreeCache, u64_max, is_present, new_entry, answer, find_lru, evict, evict_found,
  evict_lru, make_room, store, insert, remove, clear, reset_stats, or_compute, get_or_compute,
  insert_bulk, evict_all, evict_expired, keys_to_evict,
}
use snp.Cache.Tiers.Bound.{len-new, len-remove}
use snp.LockFree.Bounded.{
  IsBounded, new-IsBounded, get-IsBounded, insert-IsBounded, or_compute-IsBounded,
  insert_bulk-IsBounded, evict_all-IsBounded, remove-AreTimed,
}

pub data Call (K V : Type 0) : Type 0 where
  get_call remove_call : K → Call K V
  insert_call get_or_compute_call : K → V → Call K V
  insert_bulk_call : List (K × V) → Call K V
  evict_expired_call : (max_age_millis : ℕ) → Call K V
  clear_call reset_stats_call : Call K V

-- The calls come within the range of the clock.
abbrev pub AreInTime : {K V : Type 0} → List (ℕ × Call K V) → Type 0
AreInTime [] = Unit {0}
AreInTime ((now, call) ∷ calls) = (now < u64_max) × AreInTime calls

-- The requests since the last reset of the statistics.
abbrev pub request : {K V : Type 0} → Call K V → ℕ → ℕ
request (get_call key) n = n + 1
request (get_or_compute_call key computed) n = n + 1
request reset_stats_call n = 0
request _ n = n

abbrev pub requests : {K V : Type 0} → List (ℕ × Call K V) → ℕ → ℕ
requests [] n = n
requests ((now, call) ∷ calls) n = requests calls (request call n)

module _ {K V : Type 0} ⦃e : PartialEq K⦄ (D : DashMap K (CacheEntry V)) where
  unfoldable pub perform : ℕ → Call K V → LockFreeCache D → LockFreeCache D
  unfolding LockFree.get insert remove clear reset_stats get_or_compute insert_bulk evict_expired
  perform now (get_call key) c = (LockFree.get D now key c).0
  perform now (remove_call key) c = (remove D key c).0
  perform now (insert_call key value) c = (insert D now key value c).0
  perform now (get_or_compute_call key computed) c = (get_or_compute D now key computed c).0
  perform now (insert_bulk_call entries) c = insert_bulk D now entries c
  perform now (evict_expired_call age) c = evict_expired D now age c
  perform now clear_call c = clear D c
  perform now reset_stats_call c = reset_stats D c

  unfoldable pub after : List (ℕ × Call K V) → LockFreeCache D → LockFreeCache D
  unfolding perform
  after [] c = c
  after ((now, call) ∷ calls) c = after calls (perform now call c)

  module _ (n : ℕ) where
    perform-IsBounded :
        (now : ℕ) (call : Call K V) (c : LockFreeCache D)
        → now < u64_max
        → IsBounded D n c
        → IsBounded D n (perform now call c)
    unfolding perform remove clear reset_stats get_or_compute evict_expired
    perform-IsBounded now (get_call key) c time h = get-IsBounded D n now key c time h
    perform-IsBounded now (remove_call key) c time h = record {
      size = h.size;
      fits = omega (arith, h.fits, len-remove D key c.storage);
      timed = remove-AreTimed D n key c.storage h.timed;
    }
    perform-IsBounded now (insert_call key value) c time h =
        insert-IsBounded D n now key value c time h
    perform-IsBounded now (get_or_compute_call key computed) c time h =
        or_compute-IsBounded D n now key computed (LockFree.get D now key c) time
          (get-IsBounded D n now key c time h)
    perform-IsBounded now (insert_bulk_call entries) c time h =
        insert_bulk-IsBounded D n now entries c time h
    perform-IsBounded now (evict_expired_call age) c time h =
        evict_all-IsBounded D n (keys_to_evict (now - age) (D.entries c.storage)) c h
    perform-IsBounded now clear_call c time h = record {
      size = h.size;
      fits = omega (arith, len-new D);
      timed = λ k x found. absurd (ground (arith, D.get-new k));
    }
    perform-IsBounded now reset_stats_call c time h = record {
      size = h.size;
      fits = h.fits;
      timed = h.timed;
    }

    after-IsBounded :
        (calls : List (ℕ × Call K V)) (c : LockFreeCache D)
        → AreInTime calls
        → IsBounded D n c
        → IsBounded D n (after calls c)
    unfolding after
    after-IsBounded [] c time h = h
    after-IsBounded ((now, call) ∷ calls) c (time, times) h =
        after-IsBounded calls (perform now call c) times (perform-IsBounded now call c time h)

    -- A new cache never holds more entries than its bound, whatever is called, and one entry if the
    -- bound is 0, as long as the clock is below the greatest word.
    pub lock_free_cache-bounded :
        (calls : List (ℕ × Call K V))
        → AreInTime calls
        → D.len (after calls (LockFree.new D n)).storage ≤ max 1 n
    lock_free_cache-bounded calls time =
        (after-IsBounded calls (LockFree.new D n) time (new-IsBounded D n)).fits

  -- What an insertion keeps of the counters of requests.
  SameRequests : LockFreeCache D → LockFreeCache D → Type 0
  SameRequests c c' = (c'.hits ≡ c.hits) × (c'.misses ≡ c.misses)

  evict_found-SameRequests :
      (key : Option K) (c : LockFreeCache D) → SameRequests c (evict_found D key c)
  unfolding evict SameRequests
  evict_found-SameRequests none c = (refl, refl)
  evict_found-SameRequests (some key) c = (refl, refl)

  insert-SameRequests :
      (now : ℕ) (key : K) (value : V) (c : LockFreeCache D)
      → SameRequests c (insert D now key value c).0
  unfolding insert store evict_lru SameRequests
  insert-SameRequests now key value c =
      if_ind (λ (c' : LockFreeCache D). (c'.hits ≡ c.hits) × (c'.misses ≡ c.misses))
        (not (is_present (D.get key c.storage)) && leb c.max_size (D.len c.storage))
        (λ _. evict_found-SameRequests (find_lru (D.entries c.storage) none u64_max) c)
        (λ _. (refl, refl))

  evict_all-SameRequests :
      (keys : List K) (c : LockFreeCache D) → SameRequests c (evict_all D keys c)
  unfolding evict_all evict SameRequests
  evict_all-SameRequests [] c = (refl, refl)
  evict_all-SameRequests (key ∷ keys) c = evict_all-SameRequests keys (evict D key c)

  insert_bulk-SameRequests :
      (now : ℕ) (entries : List (K × V)) (c : LockFreeCache D)
      → SameRequests c (insert_bulk D now entries c)
  unfolding insert_bulk SameRequests
  insert_bulk-SameRequests now [] c = (refl, refl)
  insert_bulk-SameRequests now ((key, value) ∷ entries) c =
      let first = insert-SameRequests now key value c in
      let later = insert_bulk-SameRequests now entries (insert D now key value c).0 in
      (later.0 ∙ first.0, later.1 ∙ first.1)

  -- Hits and misses together count the requests.
  abbrev IsCounted : ℕ → LockFreeCache D → Type 0
  IsCounted n c = (c.hits + c.misses) % word ≡ n % word

  answer-IsCounted :
      (now : ℕ) (key : K) (found : Option (CacheEntry V)) (n : ℕ) (c : LockFreeCache D)
      → IsCounted n c
      → IsCounted (n + 1) (answer D now key found c).0
  answer-IsCounted now key none n c h = omega arith
  answer-IsCounted now key (some entry) n c h = omega arith

  or_compute-IsCounted :
      (now : ℕ) (key : K) (computed : V) (got : LockFreeCache D × Option V) (n : ℕ)
      → IsCounted n got.0
      → IsCounted n (or_compute D now key computed got).0
  unfolding SameRequests
  or_compute-IsCounted now key computed (c, some value) n h = h
  or_compute-IsCounted now key computed (c, none) n h =
      let same = insert-SameRequests now key computed c in omega (arith, same.0, same.1)

  perform-IsCounted :
      (now : ℕ) (call : Call K V) (n : ℕ) (c : LockFreeCache D)
      → IsCounted n c
      → IsCounted (request call n) (perform now call c)
  unfolding perform LockFree.get remove clear reset_stats get_or_compute evict_expired SameRequests
  perform-IsCounted now (get_call key) n c h = answer-IsCounted now key (D.get key c.storage) n c h
  perform-IsCounted now (remove_call key) n c h = h
  perform-IsCounted now (insert_call key value) n c h =
      let same = insert-SameRequests now key value c in omega (arith, same.0, same.1)
  perform-IsCounted now (get_or_compute_call key computed) n c h =
      or_compute-IsCounted now key computed (LockFree.get D now key c) (n + 1)
        (answer-IsCounted now key (D.get key c.storage) n c h)
  perform-IsCounted now (insert_bulk_call entries) n c h =
      let same = insert_bulk-SameRequests now entries c in omega (arith, same.0, same.1)
  perform-IsCounted now (evict_expired_call age) n c h =
      let same = evict_all-SameRequests (keys_to_evict (now - age) (D.entries c.storage)) c in
      omega (arith, same.0, same.1)
  perform-IsCounted now clear_call n c h = h
  perform-IsCounted now reset_stats_call n c h = omega arith

  after-IsCounted :
      (calls : List (ℕ × Call K V)) (n : ℕ) (c : LockFreeCache D)
      → IsCounted n c
      → IsCounted (requests calls n) (after calls c)
  unfolding after
  after-IsCounted [] n c h = h
  after-IsCounted ((now, call) ∷ calls) n c h =
      after-IsCounted calls (request call n) (perform now call c) (perform-IsCounted now call n c h)

  -- The hits and the misses of a new cache add up, as a word, to the calls of `get` and
  -- `get_or_compute` since the last reset of the statistics.
  pub lock_free_cache-counted :
      (max_size : ℕ) (calls : List (ℕ × Call K V))
      → ((after calls (LockFree.new D max_size)).hits
            + (after calls (LockFree.new D max_size)).misses)
          % word
        ≡ requests calls 0 % word
  lock_free_cache-counted max_size calls =
      after-IsCounted calls 0 (LockFree.new D max_size) (unfold LockFree.new in refl)
