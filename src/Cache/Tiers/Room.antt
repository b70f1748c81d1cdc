-- ===== src/Cache/Tiers/Room.antt =====
-- What the calls of src/cache.rs keep of the first tier's bound.
use snp.Prelude.{
  ℕ, ◌≡◌, ◌≤◌, ◌<◌, max, refl, sym, ◌∙◌, ap, true, List, [], ◌∷◌, Option, none, some, PartialEq,
  ==_refl, leb, ltb, length, contains, arith, Bool-cases, inl, inr, if_ind, subst,
}
use snp.Prelude.Map
use snp.Cache.{CacheConfig, CacheEntry, new_entry, accessed}
use snp.Cache.Stores.{DashMap, LruCache}
use snp.Cache.Tiers.{
  MultiTierCache, with_config, oldest, demote_to_l2, evict_key, evict_lru, make_room, put,
  promote_to_l1, get, get_l1, get_l2, hit_l2, invalidate, clear, warm_cache, move_to_l2,
  evict_older_than, remove_all, expired_keys,
}
use snp.Cache.Tiers.Bound.{len-new, len-insert, len-insert_stored, len-remove, len-remove_stored}
use snp.Cache.Tiers.Lookup.{ask_l3-none, warm_keys-same}

module _ {K V : Type 0} ⦃e : PartialEq K⦄ where
  -- The search from a best entry comes to that entry's key or to one of the list.
  oldest-key :
      (xs : List (K × CacheEntry V)) (j : K) (t : ℕ)
      → (k : K) × (s : ℕ) × (oldest xs (some (j, t)) ≡ some (k, s))
        × (contains (j ∷ Map.keys xs) k ≡ true)
  oldest-key [] j t = (j, t, refl, ground (arith, ==_refl j))
  oldest-key ((i, x) ∷ xs) j t = elim (Bool-cases (ltb x.last_accessed t)) [
    | inl earlier ↦
        let (k, s, found, member) = oldest-key xs i x.last_accessed in
        (k, s, rw earlier found, ground (arith, member))
    | inr not_earlier ↦
        let (k, s, found, member) = oldest-key xs j t in
        (k, s, rw not_earlier found, ground (arith, member))
  ]

module _ {K V : Type 0} ⦃e : PartialEq K⦄ (D : DashMap K (CacheEntry V))
    (L : LruCache K (CacheEntry V)) where
  -- At most `l1_max_entries` in the first tier, or one where that is zero.
  abbrev pub IsBounded : ℕ → MultiTierCache D L → Type 0
  IsBounded most c = (c.config.l1_max_entries ≡ most) × (D.len c.l1_cache ≤ max 1 most)

  abbrev HasRoom : ℕ → MultiTierCache D L → Type 0
  HasRoom most c = (c.config.l1_max_entries ≡ most) × (D.len c.l1_cache < max 1 most)

  evict_key-IsBounded :
      (most : ℕ) (o : Option (CacheEntry V)) (key : K) (c : MultiTierCache D L)
      → IsBounded most c
      → IsBounded most (evict_key D L o key c)
  unfolding demote_to_l2
  evict_key-IsBounded most none key c h = h
  evict_key-IsBounded most (some x) key c h = (h.0, omega (arith, h.1, len-remove D key c.l1_cache))

  evict_key-HasRoom :
      (most : ℕ) (o : Option (CacheEntry V)) (key : K) (x : CacheEntry V) (c : MultiTierCache D L)
      → o ≡ some x
      → D.get key c.l1_cache ≡ some x
      → IsBounded most c
      → HasRoom most (evict_key D L o key c)
  unfolding demote_to_l2
  evict_key-HasRoom most none key x c is found h = absurd (cc)
  evict_key-HasRoom most (some y) key x c is found h =
      (h.0, omega (arith, h.1, len-remove_stored D key x c.l1_cache found))

  evict_lru-HasRoom :
      (most : ℕ) (xs : List (K × CacheEntry V)) (c : MultiTierCache D L)
      → D.entries c.l1_cache ≡ xs
      → IsBounded most c
      → HasRoom most (evict_lru D L (oldest xs none) c)
  evict_lru-HasRoom most [] c all h = (
    h.0,
    omega (arith, D.len-entries c.l1_cache, ap (λ (l : List (K × CacheEntry V)). length l) all),
  )
  evict_lru-HasRoom most ((j, y) ∷ xs) c all h =
      let (k, s, found, member) = oldest-key xs j y.last_accessed in
      let (x, got) = Map.get_of_key k (D.entries c.l1_cache) (rw all member) in
      let stored : D.get k c.l1_cache ≡ some x = sym (D.get-entries k c.l1_cache) ∙ got in
      rw found (evict_key-HasRoom most (D.get k c.l1_cache) k x c stored stored h)

  make_room-HasRoom :
      (most : ℕ) (c : MultiTierCache D L) → IsBounded most c → HasRoom most (make_room D L c)
  unfolding make_room
  make_room-HasRoom most c h =
      if_ind (λ (r : MultiTierCache D L). HasRoom most r)
        (leb c.config.l1_max_entries (D.len c.l1_cache))
        (λ full. evict_lru-HasRoom most (D.entries c.l1_cache) c refl h)
        (λ free. (h.0, ground (arith, free, h.0)))

  pub put-IsBounded :
      (most now : ℕ) (key : K) (value : V) (c : MultiTierCache D L)
      → IsBounded most c
      → IsBounded most (put D L now key value c)
  unfolding put
  put-IsBounded most now key value c h =
      let room = make_room-HasRoom most c h in
      (
        room.0,
        omega (arith, room.1, len-insert D key (new_entry now value) (make_room D L c).l1_cache),
      )

  hit_l2-IsBounded :
      (most : ℕ) (key : K) (x : CacheEntry V) (c : MultiTierCache D L)
      → IsBounded most c
      → IsBounded most (hit_l2 D L key x c)
  unfolding promote_to_l1
  hit_l2-IsBounded most key x c h =
      let room = make_room-HasRoom most c h in
      if_ind (λ (r : MultiTierCache D L). IsBounded most r)
        (leb c.config.promotion_threshold x.access_count)
        (λ _. (room.0, omega (arith, room.1, len-insert D key x (make_room D L c).l1_cache)))
        (λ _. h)

  get_l2-IsBounded :
      (most t : ℕ) (key : K) (o : Option (CacheEntry V)) (c : MultiTierCache D L)
      → IsBounded most c
      → IsBounded most (get_l2 D L t key o c).0
  get_l2-IsBounded most t key none c h = rw (ask_l3-none D L key c) h
  get_l2-IsBounded most t key (some x) c h = hit_l2-IsBounded most key (accessed t x) _ h

  get_l1-IsBounded :
      (most t : ℕ) (key : K) (o : Option (CacheEntry V)) (c : MultiTierCache D L)
      → D.get key c.l1_cache ≡ o
      → IsBounded most c
      → IsBounded most (get_l1 D L t key o c).0
  get_l1-IsBounded most t key none c found h =
      get_l2-IsBounded most t key (L.peek key c.l2_cache) c h
  get_l1-IsBounded most t key (some x) c found h =
      (h.0, omega (arith, h.1, len-insert_stored D key (accessed t x) x c.l1_cache found))

  pub get-IsBounded :
      (most t : ℕ) (key : K) (c : MultiTierCache D L)
      → IsBounded most c
      → IsBounded most (get D L t key c).0
  unfolding get
  get-IsBounded most t key c h = get_l1-IsBounded most t key (D.get key c.l1_cache) c refl h

  len-remove_all : (ks : List K) (m : D.Store) → D.len (remove_all D L ks m) ≤ D.len m
  len-remove_all [] m = omega arith
  len-remove_all (k ∷ ks) m = omega (arith, len-remove_all ks (D.remove k m), len-remove D k m)

  pub with_config-IsBounded :
      (config : CacheConfig) → IsBounded config.l1_max_entries (with_config D L config)
  unfolding with_config
  with_config-IsBounded config = (refl, omega (arith, len-new D))

  pub invalidate-IsBounded :
      (most : ℕ) (key : K) (c : MultiTierCache D L)
      → IsBounded most c
      → IsBounded most (invalidate D L key c)
  unfolding invalidate
  invalidate-IsBounded most key c h = (h.0, omega (arith, h.1, len-remove D key c.l1_cache))

  pub clear-IsBounded :
      (most : ℕ) (c : MultiTierCache D L) → IsBounded most c → IsBounded most (clear D L c)
  unfolding clear
  clear-IsBounded most c h = (h.0, omega (arith, len-new D))

  pub move_to_l2-IsBounded :
      (most : ℕ) (key : K) (c : MultiTierCache D L)
      → IsBounded most c
      → IsBounded most (move_to_l2 D L key c)
  unfolding move_to_l2
  move_to_l2-IsBounded most key c h = evict_key-IsBounded most (D.get key c.l1_cache) key c h

  pub evict_older_than-IsBounded :
      (most now max_age : ℕ) (c : MultiTierCache D L)
      → IsBounded most c
      → IsBounded most (evict_older_than D L now max_age c)
  unfolding evict_older_than
  evict_older_than-IsBounded most now max_age c h = (
    h.0,
    omega (arith, h.1, len-remove_all (expired_keys now max_age (D.entries c.l1_cache)) c.l1_cache),
  )

  pub warm_cache-IsBounded :
      (most t : ℕ) (keys : List K) (c : MultiTierCache D L)
      → IsBounded most c
      → IsBounded most (warm_cache D L t keys c)
  unfolding warm_cache
  warm_cache-IsBounded most t keys c h =
      if_ind (λ (r : MultiTierCache D L). IsBounded most r) c.config.cache_warming
        (λ _.
          subst (λ (r : MultiTierCache D L). IsBounded most r) (sym (warm_keys-same D L t keys c))
            h)
        (λ _. h)
