-- ===== src/Chaining/Planner/Paths.antt =====
-- The recursion of `trace_longest_path` of src/hook_chaining.rs.
use mathlib.Core.List.{append-nil, append_assoc}
use snp.Prelude.{
  ℕ, zero, suc, ◌≡◌, ◌≢◌, ◌<◌, refl, true, false, List, [], ◌∷◌, ◌++◌, Option, none, some, String,
  string_eq, length, length-append, contains, contains-append, ==_refl, all, arith, Bool-cases, inl,
  inr,
}
use snp.Prelude.Map
use snp.Prelude.Partial.{◌>>=◌}
use snp.Chaining.Resolver.{HookNode, Nodes}
use snp.Chaining.Resolver.Levels.{
  flatten, deps_at, node_dependents, dependents_at, IsLayered, all_of_member, all_of_members,
}
use snp.Chaining.Planner.{longest, longer, trace_node, trace_longest_path}

-- The run ends, with a path.
abbrev pub Ends : Option (List String × ℕ) → Type 0
Ends none = ⊥
Ends (some p) = Unit

Ends-bind :
    {A : Type 0} (m : Option A) (f : A → Option (List String × ℕ))
    → (m ≢ none)
    → ((a : A) → Ends (f a))
    → Ends (m >>= f)
Ends-bind none f h k = absurd (h refl)
Ends-bind (some a) f h k = k a

Ends-some : (o : Option (List String × ℕ)) → Ends o → o ≢ none
Ends-some none h = absurd h
Ends-some (some p) h = λ e. cc

pub longest-Ends :
    (trace : String → Option (List String × ℕ)) (ids : List String) (best : List String × ℕ)
    → ((id : String) → contains ids id ≡ true → Ends (trace id))
    → Ends (longest trace ids best)
longest-Ends trace [] best h = tt
longest-Ends trace (id ∷ ids) best h =
    Ends-bind (trace id) (λ p. longest trace ids (longer best p))
      (Ends-some _ (h id (ground (arith, ==_refl id))))
      (λ p. longest-Ends trace ids (longer best p) (λ j m. h j (ground (arith, m))))

trace_node-Ends :
    (trace : String → Option (List String × ℕ)) (id : String) (o : Option HookNode)
    → ((x : String) → contains (node_dependents o) x ≡ true → Ends (trace x))
    → Ends (trace_node trace id o)
trace_node-Ends trace id none h = tt
trace_node-Ends trace id (some n) h =
    Ends-bind (longest trace n.dependents ([], 0)) _
      (Ends-some _ (longest-Ends trace n.dependents ([], 0) h)) (λ best. tt)

-- The hooks seen depend only on hooks seen.
abbrev Closed : Nodes → List String → Type 0
Closed nodes seen = all (λ id. all (contains seen) (deps_at id nodes)) seen ≡ true

-- What a hook of the level or of those before it depends on stands before the level.
before_level :
    (nodes : Nodes) (seen l : List String) (x d : String)
    → Closed nodes seen
    → all (λ id. all (contains seen) (deps_at id nodes)) l ≡ true
    → contains (seen ++ l) x ≡ true
    → contains (deps_at x nodes) d ≡ true
    → contains seen d ≡ true
before_level nodes seen l x d closed h member dep =
    all_of_member (contains seen) (deps_at x nodes) d
      (elim (Bool-cases (contains seen x)) [
        | inl old ↦ all_of_member (λ i. all (contains seen) (deps_at i nodes)) seen x closed old
        | inr other ↦
            all_of_member (λ i. all (contains seen) (deps_at i nodes)) l x h
              (ground (arith, member, other, contains-append seen l x))
      ])
      dep

Closed-append :
    (nodes : Nodes) (seen l : List String)
    → Closed nodes seen
    → all (λ id. all (contains seen) (deps_at id nodes)) l ≡ true
    → Closed nodes (seen ++ l)
Closed-append nodes seen l closed h = all_of_members _ (seen ++ l) (λ x m.
    all_of_members _ (deps_at x nodes)
      (λ d dep. rw (contains-append seen l d, before_level nodes seen l x d closed h m dep) refl))

length_of_member : (xs : List String) (a : String) → contains xs a ≡ true → 0 < length xs
length_of_member [] a h = absurd (cc)
length_of_member (x ∷ xs) a h = omega arith

-- With fuel for all the hooks of the levels to come, a path from any of them ends.
pub trace-Ends :
    (nodes : Nodes) (seen : List String) (ls : List (List String)) (fuel : ℕ) (id : String)
    → ((i x : String)
        → contains (dependents_at i nodes) x ≡ true
        → contains (deps_at x nodes) i ≡ true)
    → IsLayered nodes seen ls
    → Closed nodes seen
    → ((x : String) → Map.contains_key x nodes ≡ true → contains (seen ++ flatten ls) x ≡ true)
    → contains seen id ≡ false
    → length (flatten ls) < fuel
    → Ends (trace_longest_path fuel nodes id)
unfolding trace_longest_path
trace-Ends nodes seen ls zero id back h closed placed new few = absurd (omega (arith, few))
trace-Ends nodes seen [] (suc fuel) id back h closed placed new few =
    rw (Map.get_of_absent id nodes (ground (arith, placed id, rw append-nil at placed id))) tt
trace-Ends nodes seen (l ∷ ls) (suc fuel) id back h closed placed new few =
    let closed' : Closed nodes (seen ++ l) = Closed-append nodes seen l closed h.0 in
    let placed' : (x : String)
        → Map.contains_key x nodes ≡ true
        → contains ((seen ++ l) ++ flatten ls) x ≡ true =
      λ x k. rw (append_assoc seen l (flatten ls)) (placed x k) in
    elim (Bool-cases (contains l id)) [
      | inr later ↦
          trace-Ends nodes (seen ++ l) ls (suc fuel) id back h.1 closed' placed'
            (rw (contains-append seen l id, new, later))
            (omega (arith, few, length-append l (flatten ls)))
      | inl here ↦ trace_node-Ends (trace_longest_path fuel nodes) id (Map.get id nodes) (λ x d.
          trace-Ends nodes (seen ++ l) ls fuel x back h.1 closed' placed'
            (ground (arith, new, before_level nodes seen l x id closed h.0, back id x d))
            (omega (arith, few, length-append l (flatten ls), length_of_member l id here)))
    ]
