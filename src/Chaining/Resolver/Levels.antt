-- ===== src/Chaining/Resolver/Levels.antt =====
-- What `calculate_execution_levels` of src/hook_chaining.rs assigns.
pub mod Run
pub mod Built
pub mod Chain
use mathlib.Core.List.{append-nil, append_assoc}
use snp.Prelude.{
  ℕ, zero, suc, ◌+◌, ◌≡◌, ◌≤◌, ◌<◌, refl, sym, ap, ◌∙◌, Bool, true, false, not, ◌&&◌, ◌||◌, List,
  [], ◌∷◌, ◌++◌, Option, none, some, String, string_eq, ◌==◌, ==_iff, ==_refl, if◌then◌else◌,
  length, length-append, is_empty, contains, contains-append, any, count, count-append,
  count_of_contains, count_of_absent, length_of_count-le, SameItems, all, ltb, Result, ok, err,
  arith, Bool-cases, Option-cases, ◌⊎◌, inl, inr, if_ind, subst,
}
use snp.Prelude.Map
use snp.Chaining.Resolver.{
  HookNode, Nodes, modify, with_level, ready, unassigned, set_levels, assign_levels, ChainError,
  missing_dependency, circular_dependency, dependency_graph_failed, out_of_fuel, DependencyGraph,
  calculate_execution_levels,
}

abbrev pub flatten : List (List String) → List String
flatten [] = []
flatten (l ∷ ls) = l ++ flatten ls

abbrev pub node_dependencies : Option HookNode → List String
node_dependencies none = []
node_dependencies (some n) = n.dependencies

abbrev pub deps_at : String → Nodes → List String
deps_at id nodes = node_dependencies (Map.get id nodes)

abbrev pub node_dependents : Option HookNode → List String
node_dependents none = []
node_dependents (some n) = n.dependents

abbrev pub dependents_at : String → Nodes → List String
dependents_at id nodes = node_dependents (Map.get id nodes)

-- Every hook stands behind all that it depends on, in a later level; `seen` stands before the list.
abbrev pub IsLayered : Nodes → List String → List (List String) → Type 0
IsLayered nodes seen [] = Unit
IsLayered nodes seen (l ∷ ls) =
    (all (λ id. all (contains seen) (deps_at id nodes)) l ≡ true) × IsLayered nodes (seen ++ l) ls

-- Levels of the whole graph: each hook stands in one of them, once.
abbrev pub IsLevels : Nodes → List (List String) → Type 0
IsLevels nodes ls = IsLayered nodes [] ls × SameItems (flatten ls) (Map.keys nodes)

pub flatten-snoc :
    (ls : List (List String)) (l : List String) → flatten (ls ++ l ∷ []) ≡ flatten ls ++ l
flatten-snoc [] l = rw append-nil
flatten-snoc (k ∷ ls) l =
    ap (λ (t : List String). k ++ t) (flatten-snoc ls l) ∙ sym (append_assoc k (flatten ls) l)

pub IsLayered-snoc :
    (nodes : Nodes) (seen : List String) (ls : List (List String)) (l : List String)
    → IsLayered nodes seen ls
    → all (λ id. all (contains (seen ++ flatten ls)) (deps_at id nodes)) l ≡ true
    → IsLayered nodes seen (ls ++ l ∷ [])
IsLayered-snoc nodes seen [] l h last = (rw append-nil at last, tt)
IsLayered-snoc nodes seen (k ∷ ls) l h last =
    (h.0, IsLayered-snoc nodes (seen ++ k) ls l h.1 (rw (← append_assoc) at last))

-- The nodes of the graph, but for their levels.
pub record IsShape (nodes start : Nodes) : Type 0 where
  pub same_ready : (assigned : List String) → ready nodes assigned ≡ ready start assigned
  pub same_keys : Map.keys nodes ≡ Map.keys start
  pub same_deps : (id : String) → deps_at id nodes ≡ deps_at id start
  pub same_dependents : (id : String) → dependents_at id nodes ≡ dependents_at id start

modify-ready :
    (l : ℕ) (id : String) (nodes : Nodes) (assigned : List String)
    → ready (modify id (with_level l) nodes) assigned ≡ ready nodes assigned
unfolding ready modify
modify-ready l id [] assigned = refl
modify-ready l id ((k, n) ∷ nodes) assigned = ground (arith, modify-ready l id nodes assigned)

pub modify-keys :
    (f : HookNode → HookNode) (id : String) (nodes : Nodes)
    → Map.keys (modify id f nodes) ≡ Map.keys nodes
unfolding modify
modify-keys f id [] = refl
modify-keys f id ((k, n) ∷ nodes) = ground (arith, modify-keys f id nodes)

pub modify-deps_at :
    (f : HookNode → HookNode) (j id : String) (nodes : Nodes)
    → ((n : HookNode) → (f n).dependencies ≡ n.dependencies)
    → deps_at j (modify id f nodes) ≡ deps_at j nodes
unfolding modify Map.get
modify-deps_at f j id [] same = refl
modify-deps_at f j id ((k, n) ∷ nodes) same =
    ground (arith, same n, modify-deps_at f j id nodes same)

modify-dependents_at :
    (f : HookNode → HookNode) (j id : String) (nodes : Nodes)
    → ((n : HookNode) → (f n).dependents ≡ n.dependents)
    → dependents_at j (modify id f nodes) ≡ dependents_at j nodes
unfolding modify Map.get
modify-dependents_at f j id [] same = refl
modify-dependents_at f j id ((k, n) ∷ nodes) same =
    ground (arith, same n, modify-dependents_at f j id nodes same)

pub set_levels-IsShape :
    (l : ℕ) (ids : List String) (nodes start : Nodes)
    → IsShape nodes start
    → IsShape (set_levels l ids nodes) start
unfolding set_levels
set_levels-IsShape l [] nodes start h = h
set_levels-IsShape l (id ∷ ids) nodes start h =
    set_levels-IsShape l ids (modify id (with_level l) nodes) start (record {
      same_ready = λ a. modify-ready l id nodes a ∙ h.same_ready a;
      same_keys = modify-keys (with_level l) id nodes ∙ h.same_keys;
      same_deps = λ j. modify-deps_at (with_level l) j id nodes (λ n. refl) ∙ h.same_deps j;
      same_dependents =
          λ j. modify-dependents_at (with_level l) j id nodes (λ n. refl) ∙ h.same_dependents j;
    })

pub count-ready_le :
    (id : String) (nodes : Nodes) (assigned : List String)
    → count id (ready nodes assigned) ≤ count id (Map.keys nodes)
unfolding ready
count-ready_le id [] assigned = omega arith
count-ready_le id ((k, n) ∷ nodes) assigned = ground (arith, count-ready_le id nodes assigned)

pub ready_sound :
    (id : String) (nodes : Nodes) (assigned : List String)
    → Map.IsMap nodes
    → contains (ready nodes assigned) id ≡ true
    → (contains assigned id ≡ false) × (all (contains assigned) (deps_at id nodes) ≡ true)
unfolding ready Map.get
ready_sound id [] assigned d h = absurd (cc)
ready_sound id ((k, n) ∷ nodes) assigned d h = elim (Bool-cases (k == id)) [
  | inl same ↦ ground (
    arith,
    ==_iff k id,
    d id,
    count-ready_le id nodes assigned,
    count_of_contains id (ready nodes assigned),
  )
  | inr other ↦ ground (arith, ==_iff k id, ready_sound id nodes assigned (λ j. omega (arith, d j)))
]

pub ready_complete :
    (id : String) (nodes : Nodes) (assigned : List String)
    → Map.contains_key id nodes ≡ true
    → contains assigned id ≡ false
    → all (contains assigned) (deps_at id nodes) ≡ true
    → contains (ready nodes assigned) id ≡ true
unfolding ready Map.get
ready_complete id [] assigned known fresh deps = absurd (cc)
ready_complete id ((k, n) ∷ nodes) assigned known fresh deps =
    ground (arith, ==_iff k id, ready_complete id nodes assigned)

pub all_of_member :
    (p : String → Bool) (xs : List String) (a : String)
    → all p xs ≡ true
    → contains xs a ≡ true
    → p a ≡ true
all_of_member p [] a h m = absurd (cc)
all_of_member p (x ∷ xs) a h m = ground (arith, ==_iff x a, all_of_member p xs a)

pub all_of_members :
    (p : String → Bool) (xs : List String)
    → ((a : String) → contains xs a ≡ true → p a ≡ true)
    → all p xs ≡ true
all_of_members p [] h = refl
all_of_members p (x ∷ xs) h =
    ground (arith, h x, ==_refl x, all_of_members p xs (λ a m. h a (ground (arith, m))))

-- What a round with nothing ready shows: no order of levels goes on.
pub stuck_closed :
    (nodes : Nodes) (assigned seen : List String) (ls : List (List String))
    → ready nodes assigned ≡ []
    → ((a : String) → contains seen a ≡ true → contains assigned a ≡ true)
    → ((a : String) → contains (flatten ls) a ≡ true → Map.contains_key a nodes ≡ true)
    → IsLayered nodes seen ls
    → (a : String) → contains (flatten ls) a ≡ true
    → contains assigned a ≡ true
stuck_closed nodes assigned seen [] stuck sub known h a m = absurd (cc)
stuck_closed nodes assigned seen (l ∷ ls) stuck sub known h a m =
    let in_level : (b : String) → contains l b ≡ true → contains assigned b ≡ true = λ b in_l.
      elim (Bool-cases (contains assigned b)) [
        | inl had ↦ had
        | inr new ↦ ground (
          arith,
          ready_complete b nodes assigned (known b (rw (contains-append l (flatten ls) b, in_l)))
              new
              (all_of_members (contains assigned) (deps_at b nodes) (λ c dep. sub c (
                all_of_member (contains seen) (deps_at b nodes) c
                  (all_of_member (λ id. all (contains seen) (deps_at id nodes)) l b h.0 in_l)
                  dep))),
          stuck,
        )
      ] in
    ground (
      arith,
      contains-append l (flatten ls) a,
      in_level a,
      stuck_closed nodes assigned (seen ++ l) ls stuck
          (λ b. ground (arith, contains-append seen l b, sub b, in_level b))
          (λ b. ground (arith, contains-append l (flatten ls) b, known b)) h.1 a,
    )
