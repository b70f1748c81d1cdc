-- ===== src/Cache/Stores.antt =====
-- What the cache of src/cache.rs uses of the crates `dashmap` and `lru`, with their documented
-- behaviour.
use snp.Prelude.{
  ℕ, ◌≡◌, ◌⊎◌, false, List, Option, none, some, PartialEq, ◌==◌, if◌then◌else◌, length,
}
use snp.Prelude.Map

pub record DashMap (K E : Type 0) ⦃e : PartialEq K⦄ : Type 1 where
  pub Store : Type 0
  pub new : Store
  pub get : K → Store → Option E
  pub insert : K → E → Store → Store
  pub remove : K → Store → Store
  -- The entries in the order of `iter`.
  pub entries : Store → List (K × E)
  pub len : Store → ℕ
  pub get-new : (k : K) → get k new ≡ none
  pub get-insert :
      (k j : K) (x : E) (m : Store) → get j (insert k x m) ≡ (if k == j then some x else get j m)
  pub get-remove : (k j : K) (m : Store) → get j (remove k m) ≡ (if k == j then none else get j m)
  pub entries-IsMap : (m : Store) → Map.IsMap (entries m)
  pub get-entries : (k : K) (m : Store) → Map.get k (entries m) ≡ get k m
  pub len-entries : (m : Store) → len m ≡ length (entries m)

-- `push` returns the entry that had the key, or else the one that it evicts.
pub record LruCache (K E : Type 0) ⦃e : PartialEq K⦄ : Type 1 where
  pub Store : Type 0
  pub new : ℕ → Store
  -- The entry without a change of the order.
  pub peek : K → Store → Option E
  -- A change of an entry that is there, through `get_mut`, which makes it the latest.
  pub update : K → E → Store → Store
  pub push : K → E → Store → Option (K × E) × Store
  pub pop : K → Store → Store
  pub clear : Store → Store
  pub entries : Store → List (K × E)
  pub len : Store → ℕ
  pub peek-new : (k : K) (capacity : ℕ) → peek k (new capacity) ≡ none
  pub peek-update :
      (k j : K) (x old : E) (c : Store)
      → peek k c ≡ some old
      → peek j (update k x c) ≡ (if k == j then some x else peek j c)
  pub peek-push : (k : K) (x : E) (c : Store) → peek k (push k x c).1 ≡ some x
  pub peek-push_other :
      (k j : K) (x : E) (c : Store)
      → (k == j) ≡ false
      → (peek j (push k x c).1 ≡ peek j c) ⊎ (peek j (push k x c).1 ≡ none)
  pub peek-pop : (k j : K) (c : Store) → peek j (pop k c) ≡ (if k == j then none else peek j c)
  pub peek-clear : (k : K) (c : Store) → peek k (clear c) ≡ none
  pub entries-IsMap : (c : Store) → Map.IsMap (entries c)
  pub peek-entries : (k : K) (c : Store) → Map.get k (entries c) ≡ peek k c
