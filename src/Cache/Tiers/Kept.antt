-- ===== src/Cache/Tiers/Kept.antt =====
-- What each call of src/cache.rs keeps of the two tiers' agreement with the latest values.
use snp.Prelude.{
  ℕ, ◌≡◌, ◌≤◌, refl, ◌∙◌, false, List, [], ◌∷◌, Option, none, some, PartialEq, ◌==◌, ==_refl,
  if◌then◌else◌, leb, contains, arith, inl, inr, if_ind, subst,
}
use snp.Cache.{CacheConfig, CacheEntry, new_entry}
use snp.Cache.Stores.{DashMap, LruCache}
use snp.Cache.Tiers.{
  MultiTierCache, expired_keys, demote_to_l2, evict_key, evict_lru, find_lru_in_l1, make_room, put,
  invalidate, clear, remove_all, pop_all, evict_older_than, move_to_l2, with_config,
}
use snp.Cache.Tiers.Fresh.{
  KeyIsFresh, later, without_l2, demoted, replaced, aged, contains-expired_keys, by_key,
}

module _ {K V : Type 0} ⦃e : PartialEq K⦄ (D : DashMap K (CacheEntry V))
    (L : LruCache K (CacheEntry V)) where
  -- Every key is fresh.
  abbrev pub IsFresh : ℕ → (K → Option V) → MultiTierCache D L → Type 0
  IsFresh now latest c =
      (k : K) → KeyIsFresh now (D.get k c.l1_cache) (L.peek k c.l2_cache) (latest k)

  pub with_config-IsFresh : (config : CacheConfig) → IsFresh 0 (λ k. none) (with_config D L config)
  unfolding with_config
  with_config-IsFresh config k = rw (D.get-new k, L.peek-new k config.l2_max_entries) tt

  pushed_other :
      (now : ℕ) (a : Option (CacheEntry V)) (key j : K) (x : CacheEntry V) (c : L.Store)
      (latest : Option V)
      → (key == j) ≡ false
      → KeyIsFresh now a (L.peek j c) latest
      → KeyIsFresh now a (L.peek j (L.push key x c).1) latest
  pushed_other now a key j x c latest other h = elim (L.peek-push_other key j x c other) [
    | inl kept ↦ rw kept h
    | inr gone ↦ rw gone (without_l2 now a (L.peek j c) latest h)
  ]

  evict_key-IsFresh :
      (now : ℕ) (latest : K → Option V) (o : Option (CacheEntry V)) (key : K)
      (c : MultiTierCache D L)
      → D.get key c.l1_cache ≡ o
      → IsFresh now latest c
      → IsFresh now latest (evict_key D L o key c)
  unfolding demote_to_l2
  evict_key-IsFresh now latest none key c found h = h
  evict_key-IsFresh now latest (some x) key c found h =
      by_key
        (λ j.
          KeyIsFresh now (D.get j (D.remove key c.l1_cache)) (L.peek j (L.push key x c.l2_cache).1)
            (latest j))
        key
        (rw (D.get-remove key key c.l1_cache, ==_refl key, L.peek-push key x c.l2_cache)
          (demoted now x (L.peek key c.l2_cache) (latest key) (
            subst
              (λ (o : Option (CacheEntry V)). KeyIsFresh now o (L.peek key c.l2_cache) (latest key))
              found (h key))))
        (λ j other.
          rw (D.get-remove key j c.l1_cache, other)
            (pushed_other now (D.get j c.l1_cache) key j x c.l2_cache (latest j) other (h j)))

  evict_lru-IsFresh :
      (now : ℕ) (latest : K → Option V) (o : Option (K × ℕ)) (c : MultiTierCache D L)
      → IsFresh now latest c
      → IsFresh now latest (evict_lru D L o c)
  evict_lru-IsFresh now latest none c h = h
  evict_lru-IsFresh now latest (some (key, t)) c h =
      evict_key-IsFresh now latest (D.get key c.l1_cache) key c refl h

  pub make_room-IsFresh :
      (now : ℕ) (latest : K → Option V) (c : MultiTierCache D L)
      → IsFresh now latest c
      → IsFresh now latest (make_room D L c)
  unfolding make_room
  make_room-IsFresh now latest c h =
      if_ind (λ (r : MultiTierCache D L). IsFresh now latest r)
        (leb c.config.l1_max_entries (D.len c.l1_cache))
        (λ _. evict_lru-IsFresh now latest (find_lru_in_l1 D L c) c h) (λ _. h)

  pub later-IsFresh :
      (now t : ℕ) (latest : K → Option V) (c : MultiTierCache D L)
      → now ≤ t
      → IsFresh now latest c
      → IsFresh t latest c
  later-IsFresh now t latest c le h k = later now t _ _ (latest k) le (h k)

  -- The latest values after a `put`.
  abbrev pub put_latest : K → V → (K → Option V) → K → Option V
  put_latest key value latest k = if key == k then some value else latest k

  abbrev pub drop_latest : K → (K → Option V) → K → Option V
  drop_latest key latest k = if key == k then none else latest k

  pub put-IsFresh :
      (now : ℕ) (latest : K → Option V) (key : K) (value : V) (c : MultiTierCache D L)
      → IsFresh now latest c
      → IsFresh now (put_latest key value latest) (put D L now key value c)
  unfolding put
  put-IsFresh now latest key value c h =
      let c' = make_room D L c in
      let h' : IsFresh now latest c' = make_room-IsFresh now latest c h in
      by_key
        (λ j.
          KeyIsFresh now (D.get j (D.insert key (new_entry now value) c'.l1_cache))
            (L.peek j c'.l2_cache) (put_latest key value latest j))
        key
        (rw (D.get-insert key key (new_entry now value) c'.l1_cache, ==_refl key)
          (replaced now (D.get key c'.l1_cache) (L.peek key c'.l2_cache) (latest key) value
            (h' key)))
        (λ j other. rw (D.get-insert key j (new_entry now value) c'.l1_cache, other) (h' j))

  pub invalidate-IsFresh :
      (now : ℕ) (latest : K → Option V) (key : K) (c : MultiTierCache D L)
      → IsFresh now latest c
      → IsFresh now (drop_latest key latest) (invalidate D L key c)
  unfolding invalidate
  invalidate-IsFresh now latest key c h =
      by_key
        (λ j.
          KeyIsFresh now (D.get j (D.remove key c.l1_cache)) (L.peek j (L.pop key c.l2_cache))
            (drop_latest key latest j))
        key (rw (D.get-remove key key c.l1_cache, L.peek-pop key key c.l2_cache, ==_refl key) tt)
        (λ j other. rw (D.get-remove key j c.l1_cache, L.peek-pop key j c.l2_cache, other) (h j))

  pub clear-IsFresh : (now : ℕ) (c : MultiTierCache D L) → IsFresh now (λ k. none) (clear D L c)
  unfolding clear
  clear-IsFresh now c k = rw (D.get-new k, L.peek-clear k c.l2_cache) tt

  pub move_to_l2-IsFresh :
      (now : ℕ) (latest : K → Option V) (key : K) (c : MultiTierCache D L)
      → IsFresh now latest c
      → IsFresh now latest (move_to_l2 D L key c)
  unfolding move_to_l2
  move_to_l2-IsFresh now latest key c h =
      evict_key-IsFresh now latest (D.get key c.l1_cache) key c refl h

  get-remove_all :
      (ks : List K) (m : D.Store) (j : K)
      → D.get j (remove_all D L ks m) ≡ (if contains ks j then none else D.get j m)
  get-remove_all [] m j = refl
  get-remove_all (k ∷ ks) m j =
      get-remove_all ks (D.remove k m) j ∙ ground (arith, D.get-remove k j m)

  peek-pop_all :
      (ks : List K) (m : L.Store) (j : K)
      → L.peek j (pop_all D L ks m) ≡ (if contains ks j then none else L.peek j m)
  peek-pop_all [] m j = refl
  peek-pop_all (k ∷ ks) m j = peek-pop_all ks (L.pop k m) j ∙ ground (arith, L.peek-pop k j m)

  pub evict_older_than-IsFresh :
      (now max_age : ℕ) (latest : K → Option V) (c : MultiTierCache D L)
      → IsFresh now latest c
      → IsFresh now latest (evict_older_than D L now max_age c)
  unfolding evict_older_than
  evict_older_than-IsFresh now max_age latest c h j =
      rw
        (
          get-remove_all (expired_keys now max_age (D.entries c.l1_cache)) c.l1_cache j,
          peek-pop_all (expired_keys now max_age (L.entries c.l2_cache)) c.l2_cache j,
          contains-expired_keys now max_age (D.entries c.l1_cache) j (D.entries-IsMap c.l1_cache),
          contains-expired_keys now max_age (L.entries c.l2_cache) j (L.entries-IsMap c.l2_cache),
          D.get-entries j c.l1_cache,
          L.peek-entries j c.l2_cache,
        )
        (aged now max_age (D.get j c.l1_cache) (L.peek j c.l2_cache) (latest j) (h j))
