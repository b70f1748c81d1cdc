-- ===== src/Cache/Tiers/Fresh.antt =====
-- What the two tiers of src/cache.rs hold, against the values that were put last.
use snp.Prelude.{
  ℕ, ◌≡◌, ◌≤◌, refl, sym, ◌∙◌, Bool, true, false, List, [], ◌∷◌, Option, none, some, PartialEq,
  ◌==◌, ==_iff, if◌then◌else◌, contains, count_of_contains, arith, Bool-cases, inl, inr, if_ind,
  subst,
}
use snp.Prelude.Map
use snp.Cache.{CacheEntry, new_entry, accessed}
use snp.Cache.Tiers.{expired, expired_keys}

-- One key: what is in the first tier is the latest value; what is in the second is the latest where
-- the first has none, and otherwise is no younger than it; all was made in the past.
abbrev pub KeyIsFresh :
    {V : Type 0} → ℕ → Option (CacheEntry V) → Option (CacheEntry V) → Option V → Type 0
KeyIsFresh now none none latest = Unit
KeyIsFresh now (some x) none latest = (latest ≡ some x.value) × (x.created_at ≤ now)
KeyIsFresh now none (some y) latest = (latest ≡ some y.value) × (y.created_at ≤ now)
KeyIsFresh now (some x) (some y) latest =
    (latest ≡ some x.value) × (x.created_at ≤ now) × (y.created_at ≤ x.created_at)

module _ {V : Type 0} where
  pub later :
      (now t : ℕ) (a b : Option (CacheEntry V)) (latest : Option V)
      → now ≤ t
      → KeyIsFresh now a b latest
      → KeyIsFresh t a b latest
  later now t none none latest le h = tt
  later now t (some x) none latest le h = (h.0, omega (arith, le, h.1))
  later now t none (some y) latest le h = (h.0, omega (arith, le, h.1))
  later now t (some x) (some y) latest le h = (h.0, omega (arith, le, h.1), h.2)

  pub without_l2 :
      (now : ℕ) (a b : Option (CacheEntry V)) (latest : Option V)
      → KeyIsFresh now a b latest
      → KeyIsFresh now a none latest
  without_l2 now none b latest h = tt
  without_l2 now (some x) none latest h = h
  without_l2 now (some x) (some y) latest h = (h.0, h.1)

  pub demoted :
      (now : ℕ) (x : CacheEntry V) (b : Option (CacheEntry V)) (latest : Option V)
      → KeyIsFresh now (some x) b latest
      → KeyIsFresh now none (some x) latest
  demoted now x none latest h = h
  demoted now x (some y) latest h = (h.0, h.1)

  pub replaced :
      (now : ℕ) (a b : Option (CacheEntry V)) (latest : Option V) (value : V)
      → KeyIsFresh now a b latest
      → KeyIsFresh now (some (new_entry now value)) b (some value)
  replaced now a none latest value h = (refl, omega arith)
  replaced now none (some y) latest value h = (refl, omega arith, h.1)
  replaced now (some x) (some y) latest value h = (refl, omega arith, omega (arith, h.1, h.2))

  pub hit :
      (now t : ℕ) (x : CacheEntry V) (b : Option (CacheEntry V)) (latest : Option V)
      → KeyIsFresh now (some x) b latest
      → KeyIsFresh now (some (accessed t x)) b latest
  hit now t x none latest h = h
  hit now t x (some y) latest h = h

  pub hit_value :
      (now : ℕ) (x : CacheEntry V) (b : Option (CacheEntry V)) (latest : Option V)
      → KeyIsFresh now (some x) b latest
      → latest ≡ some x.value
  hit_value now x none latest h = h.0
  hit_value now x (some y) latest h = h.0

  abbrev pub is_expired : ℕ → ℕ → Option (CacheEntry V) → Bool
  is_expired now max_age none = false
  is_expired now max_age (some x) = expired now max_age x

  pub aged :
      (now max_age : ℕ) (a b : Option (CacheEntry V)) (latest : Option V)
      → KeyIsFresh now a b latest
      → KeyIsFresh now
          (if is_expired now max_age a then none else a)
          (if is_expired now max_age b then none else b)
          latest
  aged now max_age none none latest h = tt
  aged now max_age (some x) none latest h =
      if_ind (λ (o : Option (CacheEntry V)). KeyIsFresh now o none latest) (expired now max_age x)
        (λ _. tt) (λ _. h)
  aged now max_age none (some y) latest h =
      if_ind (λ (o : Option (CacheEntry V)). KeyIsFresh now none o latest) (expired now max_age y)
        (λ _. tt) (λ _. h)
  aged now max_age (some x) (some y) latest h = elim (Bool-cases (expired now max_age x)) [
    | inl old ↦
        let old' : expired now max_age y ≡ true = ground (arith, old, h.2) in rw (old, old') tt
    | inr new ↦ rw new (
        if_ind (λ (o : Option (CacheEntry V)). KeyIsFresh now (some x) o latest)
          (expired now max_age y) (λ _. (h.0, h.1)) (λ _. h))
  ]

module _ {K V : Type 0} ⦃e : PartialEq K⦄ where
  pub contains-expired_keys :
      (now max_age : ℕ) (xs : List (K × CacheEntry V)) (j : K)
      → Map.IsMap xs
      → contains (expired_keys now max_age xs) j ≡ is_expired now max_age (Map.get j xs)
  unfolding Map.get
  contains-expired_keys now max_age [] j distinct = refl
  contains-expired_keys now max_age ((k, x) ∷ xs) j distinct =
      let rest = contains-expired_keys now max_age xs j (λ i. omega (arith, distinct i)) in
      elim (Bool-cases (k == j)) [
        | inl same ↦
            let absent : Map.get j xs ≡ none =
              Map.get_of_absent j xs
                (ground (arith, distinct j, same, count_of_contains j (Map.keys xs))) in
            let no_more : contains (expired_keys now max_age xs) j ≡ false =
              rest ∙ rw absent refl in
            rw same (
              if_ind (λ (l : List K). contains l j ≡ expired now max_age x) (expired now max_age x)
                (λ old. rw same (sym old)) (λ new. no_more ∙ sym new))
        | inr other ↦ rw other (
            if_ind (λ (l : List K). contains l j ≡ is_expired now max_age (Map.get j xs))
              (expired now max_age x) (λ _. rw other rest) (λ _. rest))
      ]

module _ {K : Type 0} ⦃e : PartialEq K⦄ where
  pub by_key {ℓ} :
      (P : K → Type ℓ) (key : K) → P key → ((j : K) → (key == j) ≡ false → P j) → (j : K) → P j
  by_key P key here others j = elim (Bool-cases (key == j)) [
    | inl same ↦ subst P ((==_iff key j).0 same) here
    | inr other ↦ others j other
  ]
