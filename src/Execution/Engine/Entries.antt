-- ===== src/Execution/Engine/Entries.antt =====
-- What the entries of the caches of src/execution.rs keep when entries are added and evicted.
use snp.Prelude.{
  ℕ, ◌≡◌, ◌≤◌, refl, subst, arith, Bool, false, if◌then◌else◌, List, [], ◌∷◌, none, some, String,
  ◌==◌, string_eq, ==_iff, length, ltb, contains, count, count_of_contains, contains-append,
  Bool-cases, inl, inr, if_ind, ◌⊎◌,
}
use snp.Prelude.Map
use snp.Execution.Engine.ResultCache.{matching_keys, remove_all, limit}

module _ {V : Type 0} where
  pub get-remove_all :
      (ks : List String) (k : String) (m : List (String × V))
      → Map.get k (remove_all ks m) ≡ (if contains ks k then none else Map.get k m)
  unfolding remove_all
  get-remove_all [] k m = refl
  get-remove_all (j ∷ ks) k m =
      ground (arith, get-remove_all ks k (Map.remove j m), Map.get-remove j k m)

  pub remove_all-IsMap :
      (ks : List String) (m : List (String × V)) → Map.IsMap m → Map.IsMap (remove_all ks m)
  unfolding remove_all
  remove_all-IsMap [] m h = h
  remove_all-IsMap (j ∷ ks) m h = remove_all-IsMap ks (Map.remove j m) (Map.remove-IsMap j m h)

  -- A map whose entries have a property.
  pub record Holds (P : String → V → Type 0) (m : List (String × V)) : Type 0 where
    pub is_map : Map.IsMap m
    pub each : (k : String) (x : V) → Map.get k m ≡ some x → P k x

  pub remove_all-Holds :
      (P : String → V → Type 0) (ks : List String) (m : List (String × V))
      → Holds P m
      → Holds P (remove_all ks m)
  remove_all-Holds P ks m h = record {
    is_map = remove_all-IsMap ks m h.is_map;
    each = λ k x e. h.each k x (ground (arith, get-remove_all ks k m));
  }

  insert-each :
      (P : String → V → Type 0) (k : String) (v : V) (m : List (String × V))
      → Holds P m
      → P k v
      → (j : String) (x : V) → Map.get j (Map.insert k v m) ≡ some x
      → P j x
  insert-each P k v m h p j x e = elim (Bool-cases (k == j)) [
    | inl same ↦
        let found : some v ≡ some x = ground (arith, Map.get-insert k j v m) in
        let key : k ≡ j = (==_iff k j).0 same in
        let value : v ≡ x = ground arith in
        subst (λ (i : String). P i x) key (subst (λ (y : V). P k y) value p)
    | inr other ↦ h.each j x (ground (arith, Map.get-insert k j v m))
  ]

  pub insert-Holds :
      (P : String → V → Type 0) (k : String) (v : V) (m : List (String × V))
      → Holds P m
      → P k v
      → Holds P (Map.insert k v m)
  insert-Holds P k v m h p = record {
    is_map = Map.insert-IsMap k v m h.is_map;
    each = insert-each P k v m h p;
  }

module _ {V : Type 0} (p : V → Bool) where
  matching_keys-absent :
      (k : String) (m : List (String × V))
      → Map.contains_key k m ≡ false
      → contains (matching_keys p m) k ≡ false
  unfolding matching_keys
  matching_keys-absent k [] h = refl
  matching_keys-absent k ((j, x) ∷ m) h = ground (arith, matching_keys-absent k m)

  -- A key is collected exactly if its entry passes the test.
  pub contains-matching_keys :
      (k : String) (x : V) (m : List (String × V))
      → count k (Map.keys m) ≤ 1
      → Map.get k m ≡ some x
      → contains (matching_keys p m) k ≡ p x
  unfolding matching_keys Map.get
  contains-matching_keys k x [] d h = ground arith
  contains-matching_keys k x ((j, y) ∷ m) d h = elim (Bool-cases (j == k)) [
    | inl same ↦
        let e : y ≡ x = ground arith in
        let gone : contains (matching_keys p m) k ≡ false =
          elim (Bool-cases (Map.contains_key k m)) [
            | inl here ↦ absurd (ground (arith, count_of_contains k (Map.keys m)))
            | inr away ↦ matching_keys-absent k m away
          ] in
        subst (λ (z : V). contains (matching_keys p ((j, y) ∷ m)) k ≡ p z) e
          (ground (arith, contains-append {0} [] [] k))
    | inr other ↦ ground (arith, contains-matching_keys k x m)
  ]

  pub get-limit :
      (bound : ℕ) (k : String) (x : V) (m : List (String × V))
      → count k (Map.keys m) ≤ 1
      → Map.get k m ≡ some x
      → p x ≡ false
      → Map.get k (limit bound p m) ≡ some x
  unfolding limit
  get-limit bound k x m d h keep =
      ground (arith, get-remove_all (matching_keys p m) k m, contains-matching_keys k x m d h)

  pub limit-Holds :
      (P : String → V → Type 0) (bound : ℕ) (m : List (String × V))
      → Holds P m
      → Holds P (limit bound p m)
  unfolding limit
  limit-Holds P bound m h =
      if_ind (Holds P) (ltb bound (length m)) (λ _. remove_all-Holds P (matching_keys p m) m h)
        (λ _. h)

  -- Behind the eviction the map is within the bound, or no entry passes the test.
  pub limit_bound :
      (bound : ℕ) (m : List (String × V))
      → Map.IsMap m
      → (length (limit bound p m) ≤ bound)
        ⊎ ((k : String) (x : V) → Map.get k (limit bound p m) ≡ some x → p x ≡ false)
  unfolding limit
  limit_bound bound m h = elim (Bool-cases (ltb bound (length m))) [
    | inr small ↦ inl (rw small (ground arith))
    | inl large ↦ inr (λ k x e.
        let found : (if contains (matching_keys p m) k then none else Map.get k m) ≡ some x =
          ground (arith, get-remove_all (matching_keys p m) k m) in
        let here : Map.get k m ≡ some x = ground arith in
        ground (arith, contains-matching_keys k x m (h k) here))
  ]
