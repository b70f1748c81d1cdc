-- ===== src/Concurrency/Graph/Undo.antt =====
-- What `add_dependency` of src/concurrency.rs leaves when it refuses an edge.
use snp.Prelude.{
  ◌≡◌, refl, ◌∙◌, true, not, List, [], ◌∷◌, ◌++◌, String, ◌==◌, ==_iff, string_eq, if◌then◌else◌,
  contains, count, count-append, count_of_contains, retain, is_empty, Option-cases, inl, inr,
  Bool-cases, err, ok, Result, arith, ◌&&◌, if_ind,
}
use snp.Prelude.Map
use snp.Concurrency.Graph.{
  GraphError, TaskDependencyGraph, list_at, detect_cycles, push_edge, undo, add_dependency,
}
use snp.Concurrency.Graph.Pending.{edge_count}

count-retain :
    (d y : String) (l : List String)
    → count y (retain (λ x. not (x == d)) l) ≡ (if d == y then 0 else count y l)
count-retain d y [] = ground arith
count-retain d y (x ∷ l) = ground (arith, ==_iff x d, ==_iff x y, ==_iff d y, count-retain d y l)

count_of_is_empty : (y : String) (l : List String) → is_empty l ≡ true → count y l ≡ 0
count_of_is_empty y [] h = refl
count_of_is_empty y (x ∷ l) h = absurd (cc)

-- The edges of a task are those of its list.
edge_count-list_at :
    (es : List (String × List String)) (x y : String)
    → Map.IsMap es
    → edge_count es x y ≡ count y (list_at x es)
unfolding edge_count Map.get
edge_count-list_at [] x y d = refl
edge_count-list_at ((k, ds) ∷ es) x y d =
    let ih = edge_count-list_at es x y (λ j. omega (arith, d j)) in
    elim (Bool-cases (contains (Map.keys es) x)) [
      | inl known ↦ ground (arith, ih, d x, ==_iff k x, count_of_contains x (Map.keys es) known)
      | inr unknown ↦ ground (arith, ih, Map.get_of_absent x es unknown)
    ]

undo-IsMap :
    (t d : String) (es : List (String × List String)) → Map.IsMap es → Map.IsMap (undo t d es)
unfolding undo
undo-IsMap t d es m = elim (Option-cases (Map.get t es)) [
  | inl absent ↦ rw (absent, undo) m
  | inr (deps, e) ↦
      rw (e, undo)
        (if_ind (λ (r : List (String × List String)). Map.IsMap r)
          (is_empty (retain (λ x. not (x == d)) deps)) (λ _. Map.remove-IsMap t es m)
          (λ _. Map.insert-IsMap t (retain (λ x. not (x == d)) deps) es m))
]

list_at-undo :
    (es : List (String × List String)) (t d x y : String)
    → count y (list_at x (undo t d es))
      ≡ (if (t == x) && (d == y) then 0 else count y (list_at x es))
unfolding undo
list_at-undo es t d x y = elim (Option-cases (Map.get t es)) [
  | inl absent ↦ rw (absent, undo) (ground (arith, ==_iff t x, absent))
  | inr (deps, e) ↦
      let kept = retain (λ x. not (x == d)) deps in
      rw (e, undo)
        (if_ind
          (λ (r : List (String × List String)).
            count y (list_at x r) ≡ (if (t == x) && (d == y) then 0 else count y (list_at x es)))
          (is_empty kept)
          (λ none_left. ground (
            arith,
            ==_iff t x,
            e,
            Map.get-remove t x es,
            count-retain d y deps,
            count_of_is_empty y kept none_left,
          ))
          (λ some_left.
            ground (arith, ==_iff t x, e, Map.get-insert t x kept es, count-retain d y deps)))
]

-- The edges after a refusal: the refused one is gone, and the others are as before.
undo-push :
    (es : List (String × List String)) (t d x y : String)
    → Map.IsMap es
    → edge_count (undo t d (Map.insert t (list_at t es ++ d ∷ []) es)) x y
      ≡ (if (t == x) && (d == y) then 0 else edge_count es x y)
undo-push es t d x y m =
    let es' = Map.insert t (list_at t es ++ d ∷ []) es in
    let m' = Map.insert-IsMap t (list_at t es ++ d ∷ []) es m in
    edge_count-list_at (undo t d es') x y (undo-IsMap t d es' m')
    ∙ (list_at-undo es' t d x y
        ∙ ground (
          arith,
          ==_iff t x,
          ==_iff d y,
          Map.get-insert t x (list_at t es ++ d ∷ []) es,
          count-append y (list_at t es) (d ∷ []),
          edge_count-list_at es x y m,
        ))

module _ {R : Type 0} (t d : String) (g : TaskDependencyGraph R) where
  -- The same tasks, and the same edges.
  abbrev pub Keeps : TaskDependencyGraph R → Type 0
  Keeps h =
      (h.tasks ≡ g.tasks)
      × Map.IsMap h.edges
      × ((a b : String) → edge_count h.edges a b ≡ edge_count g.edges a b)

  -- The end of the call, by the result of the search for a cycle in the graph `h`.
  abbrev answer :
      TaskDependencyGraph R
      → Result GraphError (Unit {0})
      → TaskDependencyGraph R × Result GraphError (Unit {0})
  answer h searched = elim searched [
    | ok _ ↦ (h, ok tt)
    | err y ↦ (record h { edges = undo t d h.edges }, err y)
  ]

  refused :
      (h : TaskDependencyGraph R) (x : GraphError) (searched : Result GraphError (Unit {0}))
      → Keeps (record h { edges = undo t d h.edges })
      → (answer h searched).1 ≡ err x
      → Keeps (answer h searched).0
  refused h x (ok u) keeps failed = absurd (cc)
  refused h x (err y) keeps failed = keeps

  -- If `add_dependency` refuses an edge that the graph does not have, the graph, with one
  -- list for each task before, keeps its tasks, its
  -- edges, and one list for each task.
  pub add_dependency-err :
      (x : GraphError)
      → Map.IsMap g.edges
      → edge_count g.edges t d ≡ 0
      → (add_dependency t d g).1 ≡ err x
      → Keeps (add_dependency t d g).0
  unfolding add_dependency push_edge
  add_dependency-err x m fresh =
      let same : Keeps g = (refl, m, λ a b. refl) in
      let P : TaskDependencyGraph R × Result GraphError (Unit {0}) → Type 0 =
        λ r. r.1 ≡ err x → Keeps r.0 in
      if_ind P (not (Map.contains_key t g.tasks)) (λ _ failed. same)
        (λ _.
          if_ind P (not (Map.contains_key d g.tasks)) (λ _ failed. same)
            (λ _. refused (push_edge t d g) x (detect_cycles (push_edge t d g)) (
              refl,
              undo-IsMap t d (push_edge t d g).edges
                  (Map.insert-IsMap t (list_at t g.edges ++ d ∷ []) g.edges m),
              λ a b. undo-push g.edges t d a b m ∙ ground (arith, fresh, ==_iff t a, ==_iff d b),
            )))
