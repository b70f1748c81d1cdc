-- ===== src/Cache/Tiers/Lookup.antt =====
-- What `get` and `warm_cache` of src/cache.rs answer and keep.
use snp.Prelude.{
  ℕ, ◌≡◌, refl, sym, List, [], ◌∷◌, Option, none, some, PartialEq, ==_refl, leb, if_ind, subst,
}
use snp.Cache.{CacheEntry, accessed}
use snp.Cache.Stores.{DashMap, LruCache}
use snp.Cache.Tiers.{
  MultiTierCache, make_room, promote_to_l1, get_l1, get_l2, ask_l3, hit_l2, get, warm_keys,
  warm_cache,
}
use snp.Cache.Tiers.Fresh.{KeyIsFresh, hit, hit_value, by_key}
use snp.Cache.Tiers.Kept.{IsFresh, make_room-IsFresh}

-- An answer is the latest value.
abbrev pub IsLatest : {V : Type 0} → Option V → Option V → Type 0
IsLatest latest none = Unit
IsLatest latest (some value) = latest ≡ some value

module _ {K V : Type 0} ⦃e : PartialEq K⦄ (D : DashMap K (CacheEntry V))
    (L : LruCache K (CacheEntry V)) where
  -- A call's cache is fresh, and its answer the latest value of the key.
  abbrev pub Answers : ℕ → (K → Option V) → K → MultiTierCache D L × Option V → Type 0
  Answers now latest key r = IsFresh D L now latest r.0 × IsLatest (latest key) r.1

  pub ask_l3-none : (key : K) (c : MultiTierCache D L) → ask_l3 D L key c ≡ none
  ask_l3-none key c =
      if_ind (λ (o : Option V). o ≡ none) c.config.enable_l3_persistence (λ _. refl) (λ _. refl)

  hit_l2-IsFresh :
      (now : ℕ) (latest : K → Option V) (key : K) (x : CacheEntry V) (c : MultiTierCache D L)
      → KeyIsFresh now none (some x) (latest key)
      → IsFresh D L now latest c
      → IsFresh D L now latest (hit_l2 D L key x c)
  unfolding promote_to_l1
  hit_l2-IsFresh now latest key x c here h =
      let c' = make_room D L c in
      let h' : IsFresh D L now latest c' = make_room-IsFresh D L now latest c h in
      if_ind (λ (r : MultiTierCache D L). IsFresh D L now latest r)
        (leb c.config.promotion_threshold x.access_count)
        (λ _.
          by_key
            (λ j.
              KeyIsFresh now (D.get j (D.insert key x c'.l1_cache))
                (L.peek j (L.pop key c'.l2_cache)) (latest j))
            key
            (rw (D.get-insert key key x c'.l1_cache, L.peek-pop key key c'.l2_cache, ==_refl key)
              here)
            (λ j other.
              rw (D.get-insert key j x c'.l1_cache, L.peek-pop key j c'.l2_cache, other) (h' j)))
        (λ _. h)

  get_l2-Answers :
      (now t : ℕ) (latest : K → Option V) (key : K) (o : Option (CacheEntry V))
      (c : MultiTierCache D L)
      → D.get key c.l1_cache ≡ none
      → L.peek key c.l2_cache ≡ o
      → IsFresh D L now latest c
      → Answers now latest key (get_l2 D L t key o c)
  get_l2-Answers now t latest key none c miss found h = rw (ask_l3-none key c) (h, tt)
  get_l2-Answers now t latest key (some x) c miss found h =
      let x' = accessed t x in
      let here : KeyIsFresh now none (some x) (latest key) =
        subst (λ (a : Option (CacheEntry V)). KeyIsFresh now a (some x) (latest key)) miss
          (subst
            (λ (o : Option (CacheEntry V)). KeyIsFresh now (D.get key c.l1_cache) o (latest key))
            found (h key)) in
      let c' : MultiTierCache D L = record c { l2_cache = L.update key x' c.l2_cache } in
      let h' : IsFresh D L now latest c' =
        by_key
          (λ j.
            KeyIsFresh now (D.get j c.l1_cache) (L.peek j (L.update key x' c.l2_cache)) (latest j))
          key (rw (L.peek-update key key x' x c.l2_cache found, ==_refl key, miss) here)
          (λ j other. rw (L.peek-update key j x' x c.l2_cache found, other) (h j)) in
      (hit_l2-IsFresh now latest key x' c' here h', here.0)

  get_l1-Answers :
      (now t : ℕ) (latest : K → Option V) (key : K) (o : Option (CacheEntry V))
      (c : MultiTierCache D L)
      → D.get key c.l1_cache ≡ o
      → IsFresh D L now latest c
      → Answers now latest key (get_l1 D L t key o c)
  get_l1-Answers now t latest key none c found h =
      get_l2-Answers now t latest key (L.peek key c.l2_cache) c found refl h
  get_l1-Answers now t latest key (some x) c found h =
      let here : KeyIsFresh now (some x) (L.peek key c.l2_cache) (latest key) =
        subst (λ (o : Option (CacheEntry V)). KeyIsFresh now o (L.peek key c.l2_cache) (latest key))
          found (h key) in
      (
        by_key
            (λ j.
              KeyIsFresh now (D.get j (D.insert key (accessed t x) c.l1_cache))
                (L.peek j c.l2_cache) (latest j))
            key
            (rw (D.get-insert key key (accessed t x) c.l1_cache, ==_refl key)
              (hit now t x (L.peek key c.l2_cache) (latest key) here))
            (λ j other. rw (D.get-insert key j (accessed t x) c.l1_cache, other) (h j)),
        hit_value now x (L.peek key c.l2_cache) (latest key) here,
      )

  pub get-Answers :
      (now t : ℕ) (latest : K → Option V) (key : K) (c : MultiTierCache D L)
      → IsFresh D L now latest c
      → Answers now latest key (get D L t key c)
  unfolding get
  get-Answers now t latest key c h = get_l1-Answers now t latest key (D.get key c.l1_cache) c refl h

  pub warm_keys-same : (t : ℕ) (keys : List K) (c : MultiTierCache D L) → warm_keys D L t keys c ≡ c
  warm_keys-same t [] c = refl
  warm_keys-same t (k ∷ ks) c = rw (ask_l3-none k c) (warm_keys-same t ks c)

  pub warm_cache-IsFresh :
      (now t : ℕ) (latest : K → Option V) (keys : List K) (c : MultiTierCache D L)
      → IsFresh D L now latest c
      → IsFresh D L now latest (warm_cache D L t keys c)
  unfolding warm_cache
  warm_cache-IsFresh now t latest keys c h =
      if_ind (λ (r : MultiTierCache D L). IsFresh D L now latest r) c.config.cache_warming
        (λ _.
          subst (λ (r : MultiTierCache D L). IsFresh D L now latest r)
            (sym (warm_keys-same t keys c)) h)
        (λ _. h)
