-- ===== src/Cache/Tests.antt =====
-- The cache of src/cache.rs on an association list, with a second tier of one entry.
use snp.Prelude.{
  ℕ, ◌≡◌, ◌≤◌, ◌⊎◌, inr, refl, true, false, List, [], ◌∷◌, Option, none, some, String, string_eq,
  ◌==◌, ==_iff, ==_refl, if◌then◌else◌, length, arith,
}
use snp.Prelude.Map
use snp.Cache.{CacheConfig, CacheEntry}
use snp.Cache.Example.{list_store}
use snp.Cache.Stores.{DashMap, LruCache}
use snp.Cache.Tiers
use snp.Cache.Tiers.{MultiTierCache, with_config}
use snp.Cache.Calls.{
  Call, get, put, evict_older_than, expected, answers, AreLatest, new_cache-AreLatest, get-put,
  after,
}
use snp.Cache.Calls.Bounded.{new_cache-bounded}

module _ (E : Type 0) where
  abbrev map_store : DashMap String E
  map_store = list_store E

  abbrev peek : String → Option (String × E) → Option E
  peek k none = none
  peek k (some (j, x)) = if j == k then some x else none

  abbrev update : String → E → Option (String × E) → Option (String × E)
  update k x none = none
  update k x (some (j, y)) = if j == k then some (k, x) else some (j, y)

  abbrev pop : String → Option (String × E) → Option (String × E)
  pop k none = none
  pop k (some (j, y)) = if j == k then none else some (j, y)

  abbrev slot_entries : Option (String × E) → List (String × E)
  slot_entries none = []
  slot_entries (some p) = p ∷ []

  peek-update :
      (k j : String) (x old : E) (c : Option (String × E))
      → peek k c ≡ some old
      → peek j (update k x c) ≡ (if k == j then some x else peek j c)
  peek-update k j x old none h = absurd (cc)
  peek-update k j x old (some (i, y)) h = ground (arith, h, ==_iff i k, ==_iff i j, ==_iff k j)

  peek-push : (k : String) (x : E) → peek k (some (k, x)) ≡ some x
  peek-push k x = rw (==_refl k)

  peek-push_other :
      (k j : String) (x : E) (c : Option (String × E))
      → (k == j) ≡ false
      → (peek j (some (k, x)) ≡ peek j c) ⊎ (peek j (some (k, x)) ≡ none)
  peek-push_other k j x c other = inr (rw other refl)

  peek-pop :
      (k j : String) (c : Option (String × E))
      → peek j (pop k c) ≡ (if k == j then none else peek j c)
  peek-pop k j none = ground arith
  peek-pop k j (some (i, y)) = ground (arith, ==_iff i k, ==_iff i j, ==_iff k j)

  slot_entries-IsMap : (c : Option (String × E)) → Map.IsMap (slot_entries c)
  slot_entries-IsMap none k = omega arith
  slot_entries-IsMap (some p) k = ground arith

  peek-entries : (k : String) (c : Option (String × E)) → Map.get k (slot_entries c) ≡ peek k c
  unfolding Map.get
  peek-entries k none = refl
  peek-entries k (some (j, x)) = refl

  abbrev one_slot : LruCache String E
  one_slot = record {
    Store = Option (String × E);
    new = λ capacity. none;
    peek = peek;
    update = update;
    push = λ k x c. (c, some (k, x));
    pop = pop;
    clear = λ c. none;
    entries = slot_entries;
    len = λ c. length (slot_entries c);
    peek-new = λ k capacity. refl;
    peek-update = peek-update;
    peek-push = λ k x c. peek-push k x;
    peek-push_other = peek-push_other;
    peek-pop = peek-pop;
    peek-clear = λ k c. refl;
    entries-IsMap = slot_entries-IsMap;
    peek-entries = peek-entries;
  }

abbrev small : CacheConfig
small = record {
  l1_max_entries = 1;
  l2_max_entries = 1;
  promotion_threshold = 2;
  enable_l3_persistence = false;
  cache_warming = true;
  metrics_enabled = true;
}

-- The second `put` of "a" leaves the first one's value in the second tier for a while.
abbrev calls : List (ℕ × Call String ℕ)
calls =
    (0, put "a" 1)
    ∷ (5, put "b" 2)
    ∷ (1, get "a")
    ∷ (1, get "b")
    ∷ (3, put "a" 3)
    ∷ (2, get "a")
    ∷ (1, get "b")
    ∷ (4, evict_older_than 9)
    ∷ (1, get "a")
    ∷ []

calls_answered :
    answers
      (map_store (CacheEntry ℕ))
      (one_slot (CacheEntry ℕ))
      0
      calls
      (with_config (map_store (CacheEntry ℕ)) (one_slot (CacheEntry ℕ)) small)
    ≡ none ∷ none ∷ some 1 ∷ some 2 ∷ none ∷ some 3 ∷ some 2 ∷ none ∷ some 3 ∷ []
unfolding answers with_config Tiers.get Tiers.put Tiers.make_room Tiers.demote_to_l2
    Tiers.promote_to_l1 Tiers.evict_older_than Map.get Map.insert Map.remove
calls_answered = refl

new_cache-AreLatest_example : AreLatest (expected calls (λ k. none)) (
    answers
      (map_store (CacheEntry ℕ))
      (one_slot (CacheEntry ℕ))
      0
      calls
      (with_config (map_store (CacheEntry ℕ)) (one_slot (CacheEntry ℕ)) small))
new_cache-AreLatest_example =
    new_cache-AreLatest (map_store (CacheEntry ℕ)) (one_slot (CacheEntry ℕ)) small calls

abbrev strings : DashMap String (CacheEntry ℕ)
strings = map_store (CacheEntry ℕ)

abbrev slot : LruCache String (CacheEntry ℕ)
slot = one_slot (CacheEntry ℕ)

new_cache-bounded_example :
    length (after strings slot 0 calls (with_config strings slot small)).l1_cache.0 ≤ 1
new_cache-bounded_example = new_cache-bounded strings slot small calls

get-put_case :
    (Tiers.get strings slot 9 "c" (
      Tiers.put strings slot 7 "c" 4
        (after strings slot 0 calls (with_config strings slot small)))).1
    ≡ some 4
get-put_case =
    get-put strings slot 7 9 "c" 4 (after strings slot 0 calls (with_config strings slot small))
