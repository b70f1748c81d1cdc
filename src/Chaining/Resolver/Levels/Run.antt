-- ===== src/Chaining/Resolver/Levels/Run.antt =====
-- The loop of `calculate_execution_levels` of src/hook_chaining.rs, on its fuel.
use snp.Prelude.{
  ℕ, zero, suc, ◌+◌, ◌≡◌, ◌≤◌, ◌<◌, refl, sym, ap, ◌∙◌, true, false, List, [], ◌∷◌, ◌++◌, String,
  string_eq, length, length-append, is_empty, count, count-append, count_of_contains,
  count_of_absent, length_of_count-le, ltb, Result, ok, err, arith, if_ind,
}
use snp.Prelude.Map
use snp.Chaining.Resolver.{
  Nodes, ready, set_levels, assign_levels, ChainError, dependency_graph_failed,
}
use snp.Chaining.Resolver.Levels.{
  flatten, IsLayered, IsLevels, IsShape, ready_sound, set_levels-IsShape, count-ready_le,
  IsLayered-snoc, flatten-snoc, all_of_members, stuck_closed,
}

-- What the loop promises: levels of the whole graph, or that there are none.
abbrev pub Outcome : Nodes → Nodes × Result ChainError (List (List String)) → Type 0
Outcome start (nodes, ok ls) = IsShape nodes start × IsLevels start ls
Outcome start (nodes, err (dependency_graph_failed ids)) =
    IsShape nodes start × ((ls : List (List String)) → ¬ IsLevels start ls)
Outcome start (nodes, err _) = ⊥

-- The state of the loop after some rounds.
pub record Progress (start nodes : Nodes) (assigned : List String) (levels : List (List String))
    : Type 0 where
  pub shape : IsShape nodes start
  pub layered : IsLayered start [] levels
  pub placed : flatten levels ≡ assigned
  pub once : (a : String) → count a assigned ≤ count a (Map.keys start)

empty_of : (xs : List String) → is_empty xs ≡ true → xs ≡ []
empty_of [] h = refl
empty_of (x ∷ xs) h = absurd (cc)

length_of_not_empty : (xs : List String) → is_empty xs ≡ false → 0 < length xs
length_of_not_empty [] h = absurd (cc)
length_of_not_empty (x ∷ xs) h = omega arith

pub length-keys : (nodes : Nodes) → length (Map.keys nodes) ≡ length nodes
length-keys [] = refl
length-keys (p ∷ nodes) = omega (arith, length-keys nodes)

done-IsLevels :
    (start nodes : Nodes) (assigned : List String) (levels : List (List String))
    → Progress start nodes assigned levels
    → length nodes ≤ length assigned
    → IsLevels start levels
done-IsLevels start nodes assigned levels p full = (
  p.layered,
  λ a. rw p.placed (
      omega (
        arith,
        p.once a,
        full,
        length-keys nodes,
        length-keys start,
        ap (λ (ks : List String). length ks) p.shape.same_keys,
        length_of_count-le assigned (Map.keys start) p.once a,
      )),
)

stuck-no-IsLevels :
    (start nodes : Nodes) (assigned : List String)
    → Map.IsMap start
    → IsShape nodes start
    → ready nodes assigned ≡ []
    → length assigned < length nodes
    → (ls : List (List String)) → ¬ IsLevels start ls
stuck-no-IsLevels start nodes assigned distinct shape stuck few ls h =
    let counted : (a : String) → count a (Map.keys start) ≤ count a assigned = λ a. ground (
      arith,
      distinct a,
      h.1 a,
      count_of_absent a (Map.keys start),
      count_of_contains a assigned,
      count_of_absent a (flatten ls),
      stuck_closed start assigned [] ls (sym (shape.same_ready assigned) ∙ stuck)
          (λ b none_seen. absurd (cc))
          (λ b m.
            ground (
              arith,
              h.1 b,
              count_of_contains b (flatten ls) m,
              count_of_absent b (Map.keys start),
            ))
          h.0 a,
    ) in
    omega (
      arith,
      few,
      length-keys nodes,
      length-keys start,
      ap (λ (ks : List String). length ks) shape.same_keys,
      length_of_count-le (Map.keys start) assigned counted "",
      counted "",
    )

next-Progress :
    (start nodes : Nodes) (assigned : List String) (levels : List (List String)) (current : ℕ)
    → Map.IsMap start
    → Progress start nodes assigned levels
    → Progress start
        (set_levels current (ready nodes assigned) nodes)
        (assigned ++ ready nodes assigned)
        (levels ++ ready nodes assigned ∷ [])
next-Progress start nodes assigned levels current distinct p = record {
  shape = set_levels-IsShape current (ready nodes assigned) nodes start p.shape;
  layered = IsLayered-snoc start [] levels (ready nodes assigned) p.layered (
      all_of_members _ (ready nodes assigned) (λ a m.
        rw p.placed
          (ready_sound a start assigned distinct (rw (← p.shape.same_ready assigned) m)).1));
  placed =
      flatten-snoc levels (ready nodes assigned)
      ∙ ap (λ (t : List String). t ++ ready nodes assigned) p.placed;
  once = λ a. ground (
    arith,
    count-append a assigned (ready nodes assigned),
    p.once a,
    ap (λ (t : List String). count a t) (p.shape.same_ready assigned),
    count-ready_le a start assigned,
    ready_sound a start assigned distinct,
    count_of_absent a assigned,
    count_of_absent a (ready start assigned),
  );
}

pub assign_levels-Outcome :
    (fuel : ℕ) (start nodes : Nodes) (assigned : List String) (levels : List (List String))
    (current : ℕ)
    → Map.IsMap start
    → Progress start nodes assigned levels
    → length start < fuel + length assigned
    → Outcome start (assign_levels fuel nodes assigned levels current)
unfolding assign_levels
assign_levels-Outcome zero start nodes assigned levels current distinct p few = absurd (
    omega (
      arith,
      few,
      length-keys start,
      p.once "",
      length_of_count-le assigned (Map.keys start) p.once "",
    ))
assign_levels-Outcome (suc fuel) start nodes assigned levels current distinct p few =
    if_ind (λ (r : Nodes × Result ChainError (List (List String))). Outcome start r)
      (ltb (length assigned) (length nodes))
      (λ more.
        if_ind (λ (r : Nodes × Result ChainError (List (List String))). Outcome start r)
          (is_empty (ready nodes assigned))
          (λ none_ready. (
            p.shape,
            stuck-no-IsLevels start nodes assigned distinct p.shape
                (empty_of (ready nodes assigned) none_ready) (ground (arith, more)),
          ))
          (λ some_ready.
            assign_levels-Outcome fuel start _ _ _ (current + 1) distinct
              (next-Progress start nodes assigned levels current distinct p)
              (omega (
                arith,
                few,
                length-append assigned (ready nodes assigned),
                length_of_not_empty (ready nodes assigned) some_ready,
              ))))
      (λ full. (p.shape, done-IsLevels start nodes assigned levels p (ground (arith, full))))
