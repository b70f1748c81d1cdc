-- ===== src/Concurrency/Graph/Link.antt =====
-- The first loops of `resolve_execution_order` (src/concurrency.rs): the reversed edges and the
-- in-degrees that they build.
use snp.Prelude.{
  ℕ, ◌+◌, ◌≡◌, ◌<◌, refl, true, false, List, [], ◌∷◌, ◌++◌, String, none, some, ◌==◌, ==_iff,
  ==_refl, string_eq, nat_eq, if◌then◌else◌, contains, count, count-append, length, ok, err, ◌∙◌,
  arith, Bool-cases, ◌⊎◌, inl, inr,
}
use snp.Prelude.Map
use snp.Concurrency.Graph.{
  invalid_dependency, TaskDependencyGraph, Adjacency, Degrees, list_at, link, link_all,
}
use snp.Concurrency.Graph.Pending.{pending, blocked, edge_count}

-- `f t u` counts the edges from `t` to `u` so far, and `n t` those of `t`.
pub record Links (ks : List String) (f : String → String → ℕ) (n : String → ℕ)
    (r : Adjacency × Degrees) : Type 0 where
  pub listed : (u : String) → contains ks u ≡ true → (l : List String) × (Map.get u r.0 ≡ some l)
  pub counted : (t u : String) → count t (list_at u r.0) ≡ f t u
  pub degree : (t : String) → Map.get t r.1 ≡ (if contains ks t then some (n t) else none)
  pub distinct : Map.IsMap r.1

Links-ext :
    (ks : List String) (f f' : String → String → ℕ) (n n' : String → ℕ) (r : Adjacency × Degrees)
    → ((t u : String) → f t u ≡ f' t u)
    → ((t : String) → n t ≡ n' t)
    → Links ks f n r
    → Links ks f' n' r
Links-ext ks f f' n n' r p q inv = record {
  listed = inv.listed;
  counted = λ t u. inv.counted t u ∙ p t u;
  degree = λ t. ground (arith, inv.degree t, q t);
  distinct = inv.distinct;
}

blocked-nil : (ds : List String) → blocked [] ds ≡ length ds
unfolding blocked
blocked-nil [] = refl
blocked-nil (d ∷ ds) = omega (arith, blocked-nil ds)

-- One edge, from `k` to `d`.
Links-insert :
    (ks : List String) (f : String → String → ℕ) (n : String → ℕ) (k d : String) (l : List String)
    (a : Adjacency) (b : Degrees)
    → contains ks k ≡ true
    → Map.get d a ≡ some l
    → Links ks f n (a, b)
    → Links ks
        (λ t u. (if k == t then (if d == u then 1 else 0) else 0) + f t u)
        (λ t. (if k == t then 1 else 0) + n t)
        (Map.insert d (l ++ k ∷ []) a, Map.insert k (n k + 1) b)
Links-insert ks f n k d l a b task at_d inv = record {
  listed = λ u h. elim (Bool-cases (d == u)) [
    | inl same ↦ (l ++ k ∷ [], ground (arith, Map.get-insert d u (l ++ k ∷ []) a))
    | inr other ↦
        let (m, e) = inv.listed u h in (m, ground (arith, Map.get-insert d u (l ++ k ∷ []) a))
  ];
  counted = λ t u. ground (
    arith,
    Map.get-insert d u (l ++ k ∷ []) a,
    inv.counted t u,
    ==_iff d u,
    count-append t l (k ∷ []),
  );
  degree = λ t. ground (arith, Map.get-insert k t (n k + 1) b, inv.degree t, ==_iff k t);
  distinct = Map.insert-IsMap k (n k + 1) b inv.distinct;
}

module _ {R : Type 0} (g : TaskDependencyGraph R) where
  abbrev pub ks : List String
  ks = Map.keys g.tasks

  link-Links :
      (k : String) (ds : List String) (a : Adjacency) (b : Degrees) (f : String → String → ℕ)
      (n : String → ℕ)
      → contains ks k ≡ true
      → Links ks f n (a, b)
      → ((r : Adjacency × Degrees) × (link g k ds a b ≡ ok r)
          × Links ks
              (λ t u. (if k == t then count u ds else 0) + f t u)
              (λ t. (if k == t then length ds else 0) + n t)
              r
          × ((d : String) → 0 < count d ds → contains ks d ≡ true))
        ⊎ ((d : String) × (link g k ds a b ≡ err (invalid_dependency k d))
            × (0 < count d ds)
            × (contains ks d ≡ false))
  unfolding link
  link-Links k [] a b f n task inv = inl (
    (a, b),
    refl,
    record {
      listed = inv.listed;
      counted = λ t u. ground (arith, inv.counted t u);
      degree = λ t. ground (arith, inv.degree t);
      distinct = inv.distinct;
    },
    λ d h. absurd (omega arith),
  )
  link-Links k (d ∷ ds) a b f n task inv = elim (Bool-cases (contains ks d)) [
    | inr missing ↦ inr (d, rw missing, ground (arith, ==_refl d), missing)
    | inl present ↦
        let (l, at_d) = inv.listed d present in
        let at_k : Map.get k b ≡ some (n k) = rw task at (inv.degree k) in
        let a' = Map.insert d (l ++ k ∷ []) a in
        let b' = Map.insert k (n k + 1) b in
        let f' = λ (t u : String). (if k == t then (if d == u then 1 else 0) else 0) + f t u in
        let n' = λ (t : String). (if k == t then 1 else 0) + n t in
        let step : link g k (d ∷ ds) a b ≡ link g k ds a' b' = rw (present, at_d, at_k) in
        elim (link-Links k ds a' b' f' n' task (Links-insert ks f n k d l a b task at_d inv)) [
          | inl (r, linked, inv', known) ↦ inl (
            r,
            step ∙ linked,
            Links-ext ks _ _ _ _ r (λ t u. ground arith) (λ t. ground arith) inv',
            λ u h. ground (arith, ==_iff d u, known u),
          )
          | inr (u, failed, named, missing) ↦ inr (u, step ∙ failed, omega arith, missing)
        ]
  ]

  -- The list entries that the loop sees: edges out of tasks only.
  abbrev pub OutOfTasks : List (String × List String) → Type 0
  OutOfTasks [] = Unit
  OutOfTasks (e ∷ es) = (contains ks e.0 ≡ true) × OutOfTasks es

  pub link_all-Links :
      (es : List (String × List String)) (a : Adjacency) (b : Degrees) (f : String → String → ℕ)
      (n : String → ℕ)
      → OutOfTasks es
      → Links ks f n (a, b)
      → ((r : Adjacency × Degrees) × (link_all g es a b ≡ ok r)
          × Links ks (λ t u. edge_count es t u + f t u) (λ t. pending es t [] + n t) r
          × ((t d : String) → 0 < edge_count es t d → contains ks d ≡ true))
        ⊎ ((t d : String) × (link_all g es a b ≡ err (invalid_dependency t d))
            × (0 < edge_count es t d)
            × (contains ks d ≡ false))
  unfolding link_all edge_count pending
  link_all-Links [] a b f n out inv = inl (
    (a, b),
    refl,
    Links-ext ks _ _ _ _ _ (λ t u. omega arith) (λ t. omega arith) inv,
    λ t d h. absurd (omega arith),
  )
  link_all-Links ((k, ds) ∷ es) a b f n out inv = elim (link-Links k ds a b f n out.0 inv) [
    | inr (d, failed, named, missing) ↦ inr (k, d, rw failed, ground (arith, ==_refl k), missing)
    | inl (r, linked, inv', known_here) ↦ elim (link_all-Links es r.0 r.1 _ _ out.1 inv') [
      | inr (t, d, failed, named, missing) ↦ inr (t, d, rw linked failed, omega arith, missing)
      | inl (r', linked', inv'', known) ↦ inl (
        r',
        rw linked linked',
        Links-ext ks _ _ _ _ r' (λ t u. ground (arith, ==_iff k t))
            (λ t. ground (arith, blocked-nil ds)) inv'',
        λ t d h. ground (arith, known_here d, known t d),
      )
    ]
  ]
