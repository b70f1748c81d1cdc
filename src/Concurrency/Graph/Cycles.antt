-- ===== src/Concurrency/Graph/Cycles.antt =====
-- What the search for cycles of src/concurrency.rs finds.
use snp.Prelude.{
  ℕ, zero, suc, ◌≡◌, refl, true, false, List, [], ◌∷◌, ◌++◌, map, String, ◌==◌, ==_iff, ==_refl,
  string_eq, contains, length, Bool-cases, ◌⊎◌, inl, inr, err, ok, Result, ◌>>=◌, arith, subst,
}
use snp.Prelude.Map
use snp.Concurrency.Graph.{
  GraphError, out_of_fuel, circular_path, TaskDependencyGraph, Marks, flag_at, list_at, visit,
  dfs_cycle_check, check_all, dependencies, detect_cycles,
}
use snp.Concurrency.Graph.Fuel.{flag_at-insert, detect_cycles_terminates}

-- One name depends on another, through any number of edges.
pub data Reaches (edges : List (String × List String)) : String → String → Type 0 where
  stop : (a : String) → Reaches edges a a
  onward :
      {a b c : String} → Reaches edges a b → contains (list_at b edges) c ≡ true → Reaches edges a c

-- An error that tells of a cycle: `t` depends on `d`, and `d` depends on `t` in turn.
abbrev pub IsCycle : List (String × List String) → GraphError → Type 0
IsCycle edges x =
    (t d : String) × (x ≡ circular_path t d)
    × (contains (list_at t edges) d ≡ true)
    × Reaches edges d t

-- No name is put on the stack.
abbrev Shrinks : Marks → Marks → Type 0
Shrinks s u = (n : String) → flag_at n u ≡ true → flag_at n s ≡ true

-- What is on the stack depends on `t`.
abbrev Leads : List (String × List String) → Marks → String → Type 0
Leads edges s t = (n : String) → flag_at n s ≡ true → Reaches edges n t

abbrev IsTrue : List (String × List String) → Marks → Result GraphError (Marks × Marks) → Type 0
IsTrue edges s (ok r) = Shrinks s r.1
IsTrue edges s (err x) = (x ≡ out_of_fuel) ⊎ IsCycle edges x

bind-IsTrue :
    (edges : List (String × List String)) (s u : Marks) (m : Result GraphError (Marks × Marks))
    (k : Marks × Marks → Result GraphError (Marks × Marks))
    → IsTrue edges u m
    → ((r : Marks × Marks) → Shrinks u r.1 → IsTrue edges s (k r))
    → IsTrue edges s (m >>= k)
bind-IsTrue edges s u (err x) k found on = found
bind-IsTrue edges s u (ok r) k shrinks on = on r shrinks

IsTrue-before :
    (edges : List (String × List String)) (s u : Marks) (m : Result GraphError (Marks × Marks))
    → Shrinks s u
    → IsTrue edges u m
    → IsTrue edges s m
IsTrue-before edges s u (err x) shrinks found = found
IsTrue-before edges s u (ok r) shrinks later = λ n h. shrinks n (later n h)

abbrev IsFaithful :
    List (String × List String)
    → (String → Marks → Marks → Result GraphError (Marks × Marks))
    → Type 0
IsFaithful edges check = (d : String) (v s : Marks) → Leads edges s d → IsTrue edges s (check d v s)

visit-IsTrue :
    (edges : List (String × List String))
    (check : String → Marks → Marks → Result GraphError (Marks × Marks)) (task : String)
    (ds : List String) (v s : Marks)
    → IsFaithful edges check
    → ((d : String) → contains ds d ≡ true → contains (list_at task edges) d ≡ true)
    → Leads edges s task
    → IsTrue edges s (visit check task ds v s)
unfolding visit
visit-IsTrue edges check task [] v s faithful sub leads = λ n h. h
visit-IsTrue edges check task (d ∷ ds) v s faithful sub leads =
    let edge = sub d (ground (arith, ==_refl d)) in
    let sub' : (c : String) → contains ds c ≡ true → contains (list_at task edges) c ≡ true =
      λ c h. sub c (ground arith) in
    elim (Bool-cases (flag_at d v)) [
      | inl marked ↦ elim (Bool-cases (flag_at d s)) [
        | inl cyclic ↦ rw (visit, marked, cyclic) (inr (task, d, refl, edge, leads d cyclic))
        | inr fine ↦
            rw (visit, marked, fine) (visit-IsTrue edges check task ds v s faithful sub' leads)
      ]
      | inr fresh ↦
          rw (visit, fresh)
            (bind-IsTrue edges s s (check d v s) (λ r. visit check task ds r.0 r.1)
              (faithful d v s (λ n h. onward (leads n h) edge))
              (λ r shrinks. IsTrue-before edges s r.1 _ shrinks (
                visit-IsTrue edges check task ds r.0 r.1 faithful sub'
                  (λ n h. leads n (shrinks n h)))))
    ]

Leads-push :
    (edges : List (String × List String)) (s : Marks) (t : String)
    → Leads edges s t
    → Leads edges (Map.insert t true s) t
Leads-push edges s t leads n h = elim (Bool-cases (t == n)) [
  | inl same ↦ subst (λ (a : String). Reaches edges a t) ((==_iff t n).0 same) (stop t)
  | inr other ↦ leads n (ground (arith, flag_at-insert t n true s))
]

Shrinks-pop :
    (s u : Marks) (t : String) → Shrinks (Map.insert t true s) u → Shrinks s (Map.insert t false u)
Shrinks-pop s u t shrinks n h =
    ground (arith, flag_at-insert t n false u, flag_at-insert t n true s, shrinks n)

dfs_cycle_check-IsFaithful :
    (edges : List (String × List String)) (fuel : ℕ) → IsFaithful edges (dfs_cycle_check edges fuel)
unfolding dfs_cycle_check
dfs_cycle_check-IsFaithful edges zero t v s leads = inl refl
dfs_cycle_check-IsFaithful edges (suc fuel) t v s leads =
    bind-IsTrue edges s (Map.insert t true s)
      (visit (dfs_cycle_check edges fuel) t (list_at t edges) (Map.insert t true v)
        (Map.insert t true s))
      (λ r. ok (r.0, Map.insert t false r.1))
      (visit-IsTrue edges (dfs_cycle_check edges fuel) t (list_at t edges) _ _
        (dfs_cycle_check-IsFaithful edges fuel) (λ d h. h) (Leads-push edges s t leads))
      (λ r shrinks. Shrinks-pop s r.1 t shrinks)

-- Nothing is on the stack.
abbrev IsClear : Marks → Type 0
IsClear s = (n : String) → ¬ (flag_at n s ≡ true)

bind_found :
    (edges : List (String × List String)) (s : Marks) (m : Result GraphError (Marks × Marks))
    (k : Marks × Marks → Result GraphError (Unit {0})) (x : GraphError)
    → IsTrue edges s m
    → ((r : Marks × Marks) → Shrinks s r.1 → k r ≡ err x → (x ≡ out_of_fuel) ⊎ IsCycle edges x)
    → (m >>= k) ≡ err x
    → (x ≡ out_of_fuel) ⊎ IsCycle edges x
bind_found edges s (err y) k x found on e =
    let q : y ≡ x = ground arith in
    subst (λ (z : GraphError). (z ≡ out_of_fuel) ⊎ IsCycle edges z) q found
bind_found edges s (ok r) k x shrinks on e = on r shrinks e

check_all_found :
    (edges : List (String × List String)) (fuel : ℕ) (ts : List String) (v s : Marks)
    (x : GraphError)
    → IsClear s
    → check_all edges fuel ts v s ≡ err x
    → (x ≡ out_of_fuel) ⊎ IsCycle edges x
unfolding check_all
check_all_found edges fuel [] v s x clear = λ e. absurd (cc)
check_all_found edges fuel (t ∷ ts) v s x clear = elim (Bool-cases (flag_at t v)) [
  | inl marked ↦ rw (check_all, marked) (check_all_found edges fuel ts v s x clear)
  | inr fresh ↦
      rw (check_all, fresh)
        (bind_found edges s (dfs_cycle_check edges fuel t v s)
          (λ r. check_all edges fuel ts r.0 r.1) x
          (dfs_cycle_check-IsFaithful edges fuel t v s (λ n h. absurd (clear n h)))
          (λ r shrinks. check_all_found edges fuel ts r.0 r.1 x (λ n h. clear n (shrinks n h))))
]

IsClear-start : {A : Type 0} (tasks : List (String × A)) → IsClear (map (λ t. (t.0, false)) tasks)
unfolding Map.get
IsClear-start [] n h = cc
IsClear-start ((k, a) ∷ tasks) n h = IsClear-start tasks n (ground arith)

-- An error of `detect_cycles` names a cycle: the task depends on the dependency directly, and the
-- dependency depends on the task through the edges of the graph.
pub detect_cycles-IsCycle :
    {R : Type 0} (g : TaskDependencyGraph R) (x : GraphError)
    → detect_cycles g ≡ err x
    → IsCycle g.edges x
unfolding detect_cycles
detect_cycles-IsCycle g x e =
    elim (check_all_found g.edges (suc (length (Map.keys g.tasks ++ dependencies g.edges)))
      (Map.keys g.tasks) _ _ x (IsClear-start g.tasks) e) [
        | inl out ↦
            absurd (
              detect_cycles_terminates g
                (subst (λ (z : GraphError). detect_cycles g ≡ err z) out e))
        | inr cycle ↦ cycle
      ]
