-- ===== src/LockFree/Bounded.antt =====
-- The bound on the size of the cache of src/lock_free_cache.rs, over every sequence of calls.
use snp.Prelude.{
  ℕ, ◌+◌, ◌≡◌, ◌≤◌, ◌<◌, max, refl, ap, sym, ◌∙◌, subst, arith, true, false, not, ◌&&◌, if_ind, ltb,
  leb, List, [], ◌∷◌, Option, none, some, PartialEq, ◌==◌, ==_iff, ==_refl, Option-cases,
  Bool-cases, inl, inr, ◌⊎◌, length,
}
use snp.Prelude.Map
use snp.Cache.Stores.{DashMap}
use snp.Cache.Tiers.Bound.{len-new, len-insert, len-insert_stored, len-remove, len-remove_stored}
use snp.LockFree
use snp.LockFree.{
  CacheEntry, LockFreeCache, u64_max, is_present, new_entry, touch, answer, find_lru, evict,
  evict_found, evict_lru, make_room, store, insert, remove, clear, reset_stats, or_compute,
  get_or_compute, insert_bulk, evict_all, evict_expired, keys_to_evict,
}

module _ {K V : Type 0} ⦃e : PartialEq K⦄ where
  -- Once the loop has a key it ends with that key or with a later one.
  find_lru-some :
      (entries : List (K × CacheEntry V)) (k₀ : K) (m : ℕ)
      → (k : K) × (find_lru entries (some k₀) m ≡ some k)
        × ((k₀ ≡ k) ⊎ (Map.contains_key k entries ≡ true))
  unfolding find_lru
  find_lru-some [] k₀ m = (k₀, refl, inl refl)
  find_lru-some ((key, entry) ∷ entries) k₀ m = elim (Bool-cases (ltb entry.last_accessed m)) [
    | inl older ↦
        let (k, found, where_found) = find_lru-some entries key entry.last_accessed in
        (
          k,
          rw older found,
          elim where_found [
            | inl same ↦ inr (ground (arith, ==_iff key k))
            | inr later ↦ inr (ground arith)
          ],
        )
    | inr newer ↦
        let (k, found, where_found) = find_lru-some entries k₀ m in
        (
          k,
          rw newer found,
          elim where_found [ inl same ↦ inl same | inr later ↦ inr (ground arith) ],
        )
  ]

module _ {K V : Type 0} ⦃e : PartialEq K⦄ (D : DashMap K (CacheEntry V)) (n : ℕ) where
  -- Every time stamp is below the greatest word.
  abbrev pub AreTimed : D.Store → Type 0
  AreTimed m = (k : K) (x : CacheEntry V) → D.get k m ≡ some x → x.last_accessed < u64_max

  pub record IsBounded (c : LockFreeCache D) : Type 0 where
    pub size : c.max_size ≡ n
    pub fits : D.len c.storage ≤ max 1 n
    pub timed : AreTimed c.storage

  pub remove-AreTimed : (key : K) (m : D.Store) → AreTimed m → AreTimed (D.remove key m)
  remove-AreTimed key m h k x found = h k x (ground (arith, D.get-remove key k m))

  insert-AreTimed :
      (key : K) (entry : CacheEntry V) (m : D.Store)
      → entry.last_accessed < u64_max
      → AreTimed m
      → AreTimed (D.insert key entry m)
  insert-AreTimed key entry m now h k x found = elim (Bool-cases (key == k)) [
    | inl same ↦
        let e : entry ≡ x = ground (arith, D.get-insert key k entry m) in
        subst (λ (y : CacheEntry V). y.last_accessed < u64_max) e now
    | inr other ↦ h k x (ground (arith, D.get-insert key k entry m))
  ]

  -- The victim of an eviction is an entry of the map.
  lru_of :
      (m : D.Store) (entries : List (K × CacheEntry V))
      → D.entries m ≡ entries
      → AreTimed m
      → 0 < length entries
      → (k : K) × (find_lru entries none u64_max ≡ some k) × (Map.contains_key k entries ≡ true)
  unfolding find_lru Map.get
  lru_of m [] e h n = absurd (omega arith)
  lru_of m ((key, entry) ∷ entries) e h n =
      let there : D.get key m ≡ some entry =
        sym (D.get-entries key m)
        ∙ ap (λ (es : List (K × CacheEntry V)). Map.get key es) e
        ∙ ground (arith, ==_refl key) in
      let older : ltb entry.last_accessed u64_max ≡ true = ground (arith, h key entry there) in
      let (k, found, where_found) = find_lru-some entries key entry.last_accessed in
      (
        k,
        rw older found,
        elim where_found [ inl same ↦ ground (arith, ==_iff key k) | inr later ↦ ground arith ],
      )

  evict-fewer :
      (key : K) (c : LockFreeCache D) (x : CacheEntry V)
      → D.get key c.storage ≡ some x
      → D.len (evict D key c).storage < D.len c.storage
  unfolding evict
  evict-fewer key c x there = len-remove_stored D key x c.storage there

  -- An eviction from a map that is not empty makes room.
  evict_lru-fewer :
      (c : LockFreeCache D)
      → AreTimed c.storage
      → 0 < D.len c.storage
      → D.len (evict_lru D c).storage < D.len c.storage
  unfolding evict_lru
  evict_lru-fewer c h nonempty =
      let (k, found, key_there) =
        lru_of c.storage (D.entries c.storage) refl h (omega (arith, D.len-entries c.storage)) in
      let (x, there) = Map.get_of_key k (D.entries c.storage) key_there in
      rw found (evict-fewer k c x (sym (D.get-entries k c.storage) ∙ there))

  evict-IsBounded : (key : K) (c : LockFreeCache D) → IsBounded c → IsBounded (evict D key c)
  unfolding evict
  evict-IsBounded key c h = record {
    size = h.size;
    fits = omega (arith, h.fits, len-remove D key c.storage);
    timed = remove-AreTimed key c.storage h.timed;
  }

  evict_found-IsBounded :
      (key : Option K) (c : LockFreeCache D) → IsBounded c → IsBounded (evict_found D key c)
  evict_found-IsBounded none c h = h
  evict_found-IsBounded (some key) c h = evict-IsBounded key c h

  evict_found-le :
      (key : Option K) (c : LockFreeCache D) → D.len (evict_found D key c).storage ≤ D.len c.storage
  unfolding evict
  evict_found-le none c = omega arith
  evict_found-le (some key) c = len-remove D key c.storage

  evict_lru_room : (c : LockFreeCache D) → IsBounded c → D.len (evict_lru D c).storage + 1 ≤ max 1 n
  unfolding evict_lru
  evict_lru_room c h =
      let victim = find_lru (D.entries c.storage) none u64_max in
      elim (Bool-cases (ltb 0 (D.len c.storage))) [
        | inl nonempty ↦
            let fewer : D.len (evict_found D victim c).storage < D.len c.storage =
              evict_lru-fewer c h.timed (ground arith) in
            omega (arith, fewer, h.fits)
        | inr empty ↦
            let nothing : D.len c.storage ≡ 0 = ground arith in
            omega (arith, nothing, evict_found-le victim c)
      ]

  -- What holds of the map behind the eviction of an insertion.
  record HasRoom (key : K) (c : LockFreeCache D) : Type 0 where
    bounded : IsBounded c
    room : is_present (D.get key c.storage) ≡ false → D.len c.storage + 1 ≤ max 1 n

  make_room-HasRoom :
      (key : K) (c : LockFreeCache D) → IsBounded c → HasRoom key (make_room D key c)
  make_room-HasRoom key c h =
      let test = not (is_present (D.get key c.storage)) && leb c.max_size (D.len c.storage) in
      if_ind (HasRoom key) test
        (λ full.
          unfold evict_lru in
          record {
            bounded = evict_found-IsBounded (find_lru (D.entries c.storage) none u64_max) c h;
            room = λ new. evict_lru_room c h;
          })
        (λ free. record { bounded = h; room = λ new. ground arith })

  store-IsBounded :
      (now : ℕ) (key : K) (value : V) (c : LockFreeCache D)
      → now < u64_max
      → HasRoom key c
      → IsBounded (store D now key value c).0
  unfolding store new_entry
  store-IsBounded now key value c time h =
      let bounded = h.bounded in
      record {
        size = bounded.size;
        fits = elim (Option-cases (D.get key c.storage)) [
          | inl new ↦
              let room : D.len c.storage + 1 ≤ max 1 n = h.room (rw new refl) in
              omega (arith, room, len-insert D key (new_entry now value) c.storage)
          | inr (old, there) ↦ omega (
            arith,
            bounded.fits,
            len-insert_stored D key (new_entry now value) old c.storage there,
          )
        ];
        timed = insert-AreTimed key (new_entry now value) c.storage time bounded.timed;
      }

  pub insert-IsBounded :
      (now : ℕ) (key : K) (value : V) (c : LockFreeCache D)
      → now < u64_max
      → IsBounded c
      → IsBounded (insert D now key value c).0
  unfolding insert
  insert-IsBounded now key value c time h =
      store-IsBounded now key value (make_room D key c) time (make_room-HasRoom key c h)

  answer-IsBounded :
      (now : ℕ) (key : K) (found : Option (CacheEntry V)) (c : LockFreeCache D)
      → now < u64_max
      → D.get key c.storage ≡ found
      → IsBounded c
      → IsBounded (answer D now key found c).0
  unfolding touch
  answer-IsBounded now key none c time e h = record {
    size = h.size;
    fits = h.fits;
    timed = h.timed;
  }
  answer-IsBounded now key (some entry) c time e h = record {
    size = h.size;
    fits = omega (arith, h.fits, len-insert_stored D key (touch now entry) entry c.storage e);
    timed = insert-AreTimed key (touch now entry) c.storage time h.timed;
  }

  pub get-IsBounded :
      (now : ℕ) (key : K) (c : LockFreeCache D)
      → now < u64_max
      → IsBounded c
      → IsBounded (LockFree.get D now key c).0
  unfolding LockFree.get
  get-IsBounded now key c time h = answer-IsBounded now key (D.get key c.storage) c time refl h

  pub or_compute-IsBounded :
      (now : ℕ) (key : K) (computed : V) (got : LockFreeCache D × Option V)
      → now < u64_max
      → IsBounded got.0
      → IsBounded (or_compute D now key computed got).0
  or_compute-IsBounded now key computed (c, some value) time h = h
  or_compute-IsBounded now key computed (c, none) time h =
      insert-IsBounded now key computed c time h

  pub evict_all-IsBounded :
      (keys : List K) (c : LockFreeCache D) → IsBounded c → IsBounded (evict_all D keys c)
  unfolding evict_all
  evict_all-IsBounded [] c h = h
  evict_all-IsBounded (key ∷ keys) c h =
      evict_all-IsBounded keys (evict D key c) (evict-IsBounded key c h)

  pub insert_bulk-IsBounded :
      (now : ℕ) (entries : List (K × V)) (c : LockFreeCache D)
      → now < u64_max
      → IsBounded c
      → IsBounded (insert_bulk D now entries c)
  unfolding insert_bulk
  insert_bulk-IsBounded now [] c time h = h
  insert_bulk-IsBounded now ((key, value) ∷ entries) c time h =
      insert_bulk-IsBounded now entries (insert D now key value c).0 time
        (insert-IsBounded now key value c time h)

  pub new-IsBounded : IsBounded (LockFree.new D n)
  unfolding LockFree.new
  new-IsBounded = record {
    size = refl;
    fits = omega (arith, len-new D);
    timed = λ k x found. absurd (ground (arith, D.get-new k));
  }
