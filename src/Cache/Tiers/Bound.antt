-- ===== src/Cache/Tiers/Bound.antt =====
-- The size of the first tier of src/cache.rs.
use snp.Prelude.{
  ◌+◌, ◌≡◌, ◌≤◌, ◌<◌, refl, sym, ◌∙◌, ap, List, [], ◌∷◌, Option, none, some, PartialEq, ==_iff,
  ==_refl, if◌then◌else◌, length, count, length_of_count-le, arith,
}
use snp.Prelude.Map
use snp.Cache.Stores.{DashMap}
use snp.Cache.Tiers.{is_stored}

module _ {K E : Type 0} ⦃e : PartialEq K⦄ where
  -- A key stands once where the map has it.
  count-keys-get :
      (j : K) (m : List (K × E))
      → Map.IsMap m
      → count j (Map.keys m) ≡ (if is_stored (Map.get j m) then 1 else 0)
  unfolding Map.get
  count-keys-get j [] distinct = omega arith
  count-keys-get j ((k, x) ∷ m) distinct =
      ground (arith, distinct j, count-keys-get j m (λ i. omega (arith, distinct i)))

  length-keys : (m : List (K × E)) → length (Map.keys m) ≡ length m
  length-keys [] = omega arith
  length-keys (p ∷ m) = omega (arith, length-keys m)

  length_of_nothing : (m : List (K × E)) → ((k : K) → Map.get k m ≡ none) → length m ≡ 0
  unfolding Map.get
  length_of_nothing [] h = refl
  length_of_nothing ((k, x) ∷ m) h = ground (arith, h k, ==_refl k)

module _ {K E : Type 0} ⦃e : PartialEq K⦄ (D : DashMap K E) where
  pub len-new : D.len D.new ≡ 0
  len-new =
      D.len-entries D.new
      ∙ length_of_nothing (D.entries D.new) (λ k. D.get-entries k D.new ∙ D.get-new k)

  count-entries :
      (j : K) (m : D.Store)
      → count j (Map.keys (D.entries m)) ≡ (if is_stored (D.get j m) then 1 else 0)
  count-entries j m =
      count-keys-get j (D.entries m) (D.entries-IsMap m)
      ∙ ap (λ (o : Option E). if is_stored o then 1 else 0) (D.get-entries j m)

  len-keys : (m : D.Store) → length (Map.keys (D.entries m)) ≡ D.len m
  len-keys m = length-keys (D.entries m) ∙ sym (D.len-entries m)

  -- A store with no more of any key, and fewer of one, has fewer entries.
  len_of_counts :
      (m' : D.Store) (ys : List K) (t : K)
      → ((j : K) → count j (Map.keys (D.entries m')) ≤ count j ys)
      → D.len m' + count t ys ≤ length ys + count t (Map.keys (D.entries m'))
  len_of_counts m' ys t h =
      omega (arith, len-keys m', length_of_count-le (Map.keys (D.entries m')) ys h t)

  pub len-insert : (k : K) (x : E) (m : D.Store) → D.len (D.insert k x m) ≤ D.len m + 1
  len-insert k x m =
      let ks : List K = k ∷ Map.keys (D.entries m) in
      let counts : (j : K) → count j (Map.keys (D.entries (D.insert k x m))) ≤ count j ks = λ j.
        ground (arith, count-entries j (D.insert k x m), count-entries j m, D.get-insert k j x m) in
      omega (arith, len-keys m, len_of_counts (D.insert k x m) ks k counts, counts k)

  pub len-insert_stored :
      (k : K) (x old : E) (m : D.Store) → D.get k m ≡ some old → D.len (D.insert k x m) ≤ D.len m
  len-insert_stored k x old m h =
      let counts : (j : K)
          → count j (Map.keys (D.entries (D.insert k x m))) ≤ count j (Map.keys (D.entries m)) =
        λ j. ground (
          arith,
          count-entries j (D.insert k x m),
          count-entries j m,
          D.get-insert k j x m,
          ==_iff k j,
          h,
        ) in
      omega (
        arith,
        len-keys m,
        len_of_counts (D.insert k x m) (Map.keys (D.entries m)) k counts,
        counts k,
      )

  fewer :
      (k : K) (m : D.Store) (j : K)
      → count j (Map.keys (D.entries (D.remove k m))) ≤ count j (Map.keys (D.entries m))
  fewer k m j =
      ground (arith, count-entries j (D.remove k m), count-entries j m, D.get-remove k j m)

  pub len-remove : (k : K) (m : D.Store) → D.len (D.remove k m) ≤ D.len m
  len-remove k m = omega (
    arith,
    len-keys m,
    len_of_counts (D.remove k m) (Map.keys (D.entries m)) k (fewer k m),
    fewer k m k,
  )

  pub len-remove_stored :
      (k : K) (x : E) (m : D.Store) → D.get k m ≡ some x → D.len (D.remove k m) < D.len m
  len-remove_stored k x m h = ground (
    arith,
    len-keys m,
    len_of_counts (D.remove k m) (Map.keys (D.entries m)) k (fewer k m),
    count-entries k (D.remove k m),
    count-entries k m,
    D.get-remove k k m,
    ==_refl k,
    h,
  )
