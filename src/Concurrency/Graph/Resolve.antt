-- ===== src/Concurrency/Graph/Resolve.antt =====
-- `TaskDependencyGraph::resolve_execution_order` (src/concurrency.rs): what an order of the tasks
-- is, and when the function returns one.
use snp.Prelude.{
  ℕ, ◌≡◌, ◌≤◌, ◌<◌, refl, ◌∙◌, true, false, List, [], ◌∷◌, ◌++◌, map, String, none, some, ◌==◌,
  ==_iff, ==_refl, string_eq, nat_eq, if◌then◌else◌, contains, count, count_of_contains,
  count_of_absent, count-append, length, length_of_count-le, SameItems, ok, err, arith, Bool-cases,
  ltb, ◌⊎◌, inl, inr,
}
use snp.Prelude.Map
use mathlib.Core.List.{append_assoc}
use snp.Concurrency.Graph.{
  GraphError, invalid_dependency, circular_order, TaskDependencyGraph, Degrees, sources,
  resolve_execution_order,
}
use snp.Concurrency.Graph.Pending.{pending, edge_count, pending_pos, contains_snoc}
use snp.Concurrency.Graph.Drain.{IsOrdered, Inv, drain-Inv}
use snp.Concurrency.Graph.Link.{ks, Links, OutOfTasks, link_all-Links}

-- What `add_task` and `add_dependency` keep: ids are distinct, and edges lead out of tasks.
pub record IsGraph {R : Type 0} (g : TaskDependencyGraph R) : Type 0 where
  pub distinct : Map.IsMap g.tasks
  pub out : OutOfTasks g g.edges

-- `t` depends on `d`.
abbrev pub DependsOn : {R : Type 0} → TaskDependencyGraph R → String → String → Type 0
DependsOn g t d = 0 < edge_count g.edges t d

-- All tasks, each once, each behind all that it depends on.
abbrev pub IsOrderOf : {R : Type 0} → TaskDependencyGraph R → List String → Type 0
IsOrderOf g order = SameItems order (Map.keys g.tasks) × IsOrdered g.edges [] order

get-const :
    {A B : Type 0} (v : B) (t : String) (m : List (String × A))
    → Map.get t (map (λ p. (p.0, v)) m) ≡ (if Map.contains_key t m then some v else none)
unfolding Map.get
get-const v t [] = refl
get-const v t ((k, a) ∷ m) = ground (arith, get-const v t m)

keys-const :
    {A B : Type 0} (v : B) (t : String) (m : List (String × A))
    → count t (Map.keys (map (λ p. (p.0, v)) m)) ≡ count t (Map.keys m)
keys-const v t [] = refl
keys-const v t ((k, a) ∷ m) = omega (arith, keys-const v t m)

length-keys : {A : Type 0} (m : List (String × A)) → length (Map.keys m) ≡ length m
length-keys [] = refl
length-keys (p ∷ m) = omega (arith, length-keys m)

count-sources-le : (t : String) (m : Degrees) → count t (sources m) ≤ count t (Map.keys m)
unfolding sources
count-sources-le t [] = omega arith
count-sources-le t ((k, n) ∷ m) = ground (arith, count-sources-le t m)

count-sources :
    (t : String) (m : Degrees)
    → Map.IsMap m
    → count t (sources m) ≡ elim (Map.get t m) [ none ↦ 0 | some n ↦ if n == 0 then 1 else 0 ]
unfolding sources Map.get
count-sources t [] d = refl
count-sources t ((k, n) ∷ m) d =
    ground (arith, d t, count-sources-le t m, count-sources t m (λ j. omega (arith, d j)))

OutOfTasks-known :
    {R : Type 0} (g : TaskDependencyGraph R) (es : List (String × List String)) (t d : String)
    → OutOfTasks g es
    → 0 < edge_count es t d
    → contains (Map.keys g.tasks) t ≡ true
unfolding edge_count
OutOfTasks-known g [] t d out h = ground arith
OutOfTasks-known g ((k, ds) ∷ es) t d out h =
    ground (arith, ==_iff k t, OutOfTasks-known g es t d out.1)

module _ {R : Type 0} (g : TaskDependencyGraph R) (wf : IsGraph g) where
  -- What the loop left is all of the tasks, if they can be ordered at all.
  all_done :
      (done : List String) (degrees : Degrees) (order seen : List String)
      → Inv g.edges (ks g) [] [] degrees done
      → ((t : String) → 0 < count t order → contains (ks g) t ≡ true)
      → ((t : String) → contains seen t ≡ true → contains done t ≡ true)
      → IsOrdered g.edges seen order
      → (t : String) → 0 < count t order
      → 0 < count t done
  all_done done degrees [] seen inv known before ordered t h = absurd (omega arith)
  all_done done degrees (x ∷ xs) seen inv known before ordered t h =
      let here : 0 < count x done = elim (Bool-cases (ltb 0 (pending g.edges x done))) [
        | inl held ↦
            let (d, named, missing) = pending_pos g.edges x done (ground arith) in
            absurd (ground (arith, before d, ordered.0 d named))
        | inr free ↦ ground (arith, inv.placed x, known x, ==_refl x)
      ] in
      elim (Bool-cases (x == t)) [
        | inl same ↦ ground (arith, ==_iff x t)
        | inr other ↦
            all_done done degrees xs (seen ++ x ∷ []) inv (λ u k. known u (ground arith))
              (λ u k.
                ground
                  (arith, contains_snoc seen x u, before u, ==_iff x u, count_of_absent x done))
              ordered.1 t (ground arith)
      ]

  start :
      Links (ks g) (λ t u. 0) (λ t. 0) (map (λ t. (t.0, [])) g.tasks, map (λ t. (t.0, 0)) g.tasks)
  start = record {
    listed = λ u h. ([], get-const [] u g.tasks ∙ rw h);
    counted = λ t u. ground (arith, get-const {B = List String} [] u g.tasks);
    degree = λ t. get-const 0 t g.tasks;
    distinct = λ t. omega (arith, keys-const {B = ℕ} 0 t g.tasks, wf.distinct t);
  }

  all_short :
      (done : List String) (degrees : Degrees) (order : List String)
      → Inv g.edges (ks g) [] [] degrees done
      → ((t : String) → count t done ≤ count t (ks g))
      → (length done == length g.tasks) ≡ false
      → ¬ IsOrderOf g order
  all_short done degrees order inv fits short o =
      let full : (t : String) → count t (ks g) ≤ count t done = λ t. ground (
        arith,
        o.0 t,
        wf.distinct t,
        all_done done degrees order [] inv (λ u h. ground (arith, o.0 u, count_of_absent u (ks g)))
            (λ u h. ground arith) o.1 t,
      ) in
      ground (
        arith,
        fits "",
        full "",
        length-keys g.tasks,
        length_of_count-le done (ks g) fits "",
        length_of_count-le (ks g) done full "",
      )

  -- The three outcomes, and what each means.
  pub resolve-cases :
      ((order : List String) × (resolve_execution_order g ≡ ok order) × IsOrderOf g order)
      ⊎ ((t d : String) × (resolve_execution_order g ≡ err (invalid_dependency t d))
          × DependsOn g t d
          × (contains (ks g) d ≡ false))
      ⊎ ((resolve_execution_order g ≡ err circular_order)
          × ((order : List String) → ¬ IsOrderOf g order))
  unfolding resolve_execution_order
  resolve-cases = elim (link_all-Links g g.edges _ _ (λ t u. 0) (λ t. 0) wf.out start) [
    | inr (t, d, failed, named, missing) ↦ inr (inl (t, d, rw failed, named, missing))
    | inl (r, linked, links, known) ↦
        let (done, drained, (degrees, inv), ordered) =
          drain-Inv g.edges (ks g) r.0 (λ t u. omega (arith, links.counted t u))
            (λ t u. OutOfTasks-known g g.edges t u wf.out) (length g.tasks) (sources r.1) r.1 []
            (record {
              degree = λ t. ground (arith, links.degree t);
              placed = λ t. ground (arith, links.degree t, count-sources t r.1 links.distinct);
            })
            tt (omega (arith, length-keys g.tasks)) in
        let fits : (t : String) → count t done ≤ count t (ks g) =
          λ t. ground (arith, inv.placed t, count_of_contains t (ks g)) in
        elim (Bool-cases (length done == length g.tasks)) [
          | inl full ↦ inl (
            done,
            rw (linked, drained, full),
            (
              λ t.
                  ground
                    (arith, fits t, length_of_count-le done (ks g) fits t, length-keys g.tasks),
              ordered,
            ),
          )
          | inr short ↦ inr (
              inr (
                rw (linked, drained, short),
                λ order o. all_short done degrees order inv fits short o,
              ))
        ]
  ]

module _ {R : Type 0} (g : TaskDependencyGraph R) where
  IsOrdered-closed :
      (seen xs : List String) (t d : String)
      → IsOrdered g.edges seen xs
      → 0 < count t xs
      → DependsOn g t d
      → 0 < count d (seen ++ xs)
  IsOrdered-closed seen [] t d o h e = absurd (omega arith)
  IsOrdered-closed seen (x ∷ xs) t d o h e = elim (Bool-cases (x == t)) [
    | inl same ↦
        ground (arith, ==_iff x t, o.0 d, count_of_contains d seen, count-append d seen (x ∷ xs))
    | inr other ↦ rw append_assoc at (IsOrdered-closed (seen ++ x ∷ []) xs t d o.1 (ground arith) e)
  ]

  -- An order that the function returns for a well-formed graph holds every task as often as the
  -- graph does, and each task stands behind all tasks that it depends on.
  pub resolve_execution_order-IsOrderOf :
      (order : List String) → IsGraph g → resolve_execution_order g ≡ ok order → IsOrderOf g order
  resolve_execution_order-IsOrderOf order wf e = elim (resolve-cases g wf) [
    | inl (r, found, o) ↦ let same : r ≡ order = cc in rw same at o
    | inr (inl (t, d, failed, named, missing)) ↦ absurd (cc)
    | inr (inr (failed, none_exists)) ↦ absurd (cc)
  ]

  -- If the tasks of a well-formed graph can be ordered at all, the function returns an order:
  -- neither an error, nor a panic, nor an endless loop stands in its way.
  pub resolve_execution_order_total :
      (order : List String)
      → IsGraph g
      → IsOrderOf g order
      → (r : List String) × (resolve_execution_order g ≡ ok r) × IsOrderOf g r
  resolve_execution_order_total order wf o = elim (resolve-cases g wf) [
    | inl found ↦ found
    | inr (inl (t, d, failed, named, missing)) ↦ absurd (
        ground (
          arith,
          OutOfTasks-known g g.edges t d wf.out named,
          count_of_contains t (ks g),
          IsOrdered-closed [] order t d o.1,
          o.0 t,
          o.0 d,
          count_of_absent d (ks g),
        ))
    | inr (inr (failed, none_exists)) ↦ absurd (none_exists order o)
  ]

  -- On a well-formed graph the function fails in two ways only: a task depends on one that the
  -- graph lacks, which the error names, or no order of the tasks exists.
  pub resolve_execution_order_error :
      (x : GraphError)
      → IsGraph g
      → resolve_execution_order g ≡ err x
      → ((t d : String) × (x ≡ invalid_dependency t d)
          × DependsOn g t d
          × (contains (ks g) d ≡ false))
        ⊎ ((x ≡ circular_order) × ((order : List String) → ¬ IsOrderOf g order))
  resolve_execution_order_error x wf e = elim (resolve-cases g wf) [
    | inl (r, found, o) ↦ absurd (cc)
    | inr (inl (t, d, failed, named, missing)) ↦ inl (t, d, cc, named, missing)
    | inr (inr (failed, none_exists)) ↦ inr (cc, none_exists)
  ]
