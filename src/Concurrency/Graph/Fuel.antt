-- ===== src/Concurrency/Graph/Fuel.antt =====
-- The fuel of the search for cycles in src/concurrency.rs.
use snp.Prelude.{
  ℕ, Bool, zero, suc, ◌≡◌, ◌≢◌, ◌≤◌, ◌<◌, true, false, not, List, [], ◌∷◌, ◌++◌, map, String, ◌==◌,
  ==_iff, ==_refl, string_eq, if◌then◌else◌, contains, contains-append, length, retain, Bool-cases,
  inl, inr, err, ok, Result, ◌>>=◌, arith,
}
use snp.Prelude.Map
use snp.Concurrency.Graph.{
  GraphError, out_of_fuel, TaskDependencyGraph, Marks, flag_at, list_at, visit, dfs_cycle_check,
  check_all, dependencies, detect_cycles,
}

-- Every name that is marked stays marked.
abbrev Grows : Marks → Marks → Type 0
Grows v w = (n : String) → flag_at n v ≡ true → flag_at n w ≡ true

-- The names of the list that are not marked.
abbrev unvisited : List String → Marks → ℕ
unvisited names v = length (retain (λ n. not (flag_at n v)) names)

-- The search went on from the marks, or failed, but not for want of fuel.
abbrev IsRun : Marks → Result GraphError (Marks × Marks) → Type 0
IsRun v (ok r) = Grows v r.0
IsRun v (err x) = x ≢ out_of_fuel

unvisited-Grows :
    (names : List String) (v w : Marks) → Grows v w → unvisited names w ≤ unvisited names v
unvisited-Grows [] v w grows = omega arith
unvisited-Grows (n ∷ names) v w grows = ground (arith, grows n, unvisited-Grows names v w grows)

unvisited_less :
    (names : List String) (v w : Marks) (t : String)
    → Grows v w
    → contains names t ≡ true
    → flag_at t v ≡ false
    → flag_at t w ≡ true
    → unvisited names w < unvisited names v
unvisited_less [] v w t grows known fresh marked = absurd (cc)
unvisited_less (n ∷ names) v w t grows known fresh marked = elim (Bool-cases (n == t)) [
  | inl same ↦ ground (arith, ==_iff n t, fresh, marked, unvisited-Grows names v w grows)
  | inr other ↦
      let later : contains names t ≡ true = ground arith in
      ground (arith, grows n, unvisited_less names v w t grows later fresh marked)
]

pub flag_at-insert :
    (t n : String) (b : Bool) (v : Marks)
    → flag_at n (Map.insert t b v) ≡ (if t == n then b else flag_at n v)
flag_at-insert t n b v = ground (arith, Map.get-insert t n b v)

Grows-insert : (t : String) (v : Marks) → Grows v (Map.insert t true v)
Grows-insert t v n h = ground (arith, flag_at-insert t n true v)

IsRun-before :
    (v w : Marks) (m : Result GraphError (Marks × Marks)) → Grows v w → IsRun w m → IsRun v m
IsRun-before v w (err x) grows run = run
IsRun-before v w (ok r) grows run = λ n h. run n (grows n h)

bind-IsRun :
    (v : Marks) (m : Result GraphError (Marks × Marks))
    (k : Marks × Marks → Result GraphError (Marks × Marks))
    → IsRun v m
    → ((r : Marks × Marks) → Grows v r.0 → IsRun r.0 (k r))
    → IsRun v (m >>= k)
bind-IsRun v (err x) k failed on = failed
bind-IsRun v (ok r) k grows on = IsRun-before v r.0 (k r) grows (on r grows)

abbrev AllIn : List String → List String → Type 0
AllIn names [] = Unit
AllIn names (d ∷ ds) = (contains names d ≡ true) × AllIn names ds

-- A call of the search is good while no more than `n` names are unmarked.
abbrev IsGood :
    List String → ℕ → (String → Marks → Marks → Result GraphError (Marks × Marks)) → Type 0
IsGood names n check =
    (d : String) (v s : Marks)
    → contains names d ≡ true
    → flag_at d v ≡ false
    → unvisited names v ≤ n
    → IsRun v (check d v s)

visit-IsRun :
    (names : List String) (n : ℕ)
    (check : String → Marks → Marks → Result GraphError (Marks × Marks)) (task : String)
    (ds : List String) (v s : Marks)
    → IsGood names n check
    → AllIn names ds
    → unvisited names v ≤ n
    → IsRun v (visit check task ds v s)
unfolding visit
visit-IsRun names n check task [] v s good known few = λ k h. h
visit-IsRun names n check task (d ∷ ds) v s good known few = elim (Bool-cases (flag_at d v)) [
  | inl marked ↦ elim (Bool-cases (flag_at d s)) [
    | inl cyclic ↦ rw (visit, marked, cyclic) (λ e. cc)
    | inr fine ↦ rw (visit, marked, fine) (visit-IsRun names n check task ds v s good known.1 few)
  ]
  | inr fresh ↦
      rw (visit, fresh)
        (bind-IsRun v (check d v s) (λ r. visit check task ds r.0 r.1)
          (good d v s known.0 fresh few)
          (λ r grows.
            visit-IsRun names n check task ds r.0 r.1 good known.1
              (omega (arith, unvisited-Grows names v r.0 grows, few))))
]

dfs_cycle_check-IsGood :
    (names : List String) (edges : List (String × List String)) (fuel : ℕ)
    → ((t : String) → AllIn names (list_at t edges))
    → IsGood names fuel (dfs_cycle_check edges fuel)
unfolding dfs_cycle_check
dfs_cycle_check-IsGood names edges zero known t v s named fresh few = absurd (
    omega (
      arith,
      few,
      unvisited_less names v (Map.insert t true v) t (Grows-insert t v) named fresh
          (ground (arith, flag_at-insert t t true v, ==_refl t)),
    ))
dfs_cycle_check-IsGood names edges (suc fuel) known t v s named fresh few =
    let v' = Map.insert t true v in
    let less =
      unvisited_less names v v' t (Grows-insert t v) named fresh
        (ground (arith, flag_at-insert t t true v, ==_refl t)) in
    IsRun-before v v' _ (Grows-insert t v) (
      bind-IsRun v'
        (visit (dfs_cycle_check edges fuel) t (list_at t edges) v' (Map.insert t true s))
        (λ r. ok (r.0, Map.insert t false r.1))
        (visit-IsRun names fuel (dfs_cycle_check edges fuel) t (list_at t edges) v' _
          (dfs_cycle_check-IsGood names edges fuel known) (known t) (omega (arith, less, few)))
        (λ r grows n h. h))

bind_not_out :
    (v : Marks) (m : Result GraphError (Marks × Marks))
    (k : Marks × Marks → Result GraphError (Unit {0}))
    → IsRun v m
    → ((r : Marks × Marks) → Grows v r.0 → k r ≢ err out_of_fuel)
    → (m >>= k) ≢ err out_of_fuel
bind_not_out v (err x) k failed on e = failed (ground arith)
bind_not_out v (ok r) k grows on e = on r grows e

check_all_not_out :
    (names : List String) (edges : List (String × List String)) (fuel : ℕ) (ts : List String)
    (v s : Marks)
    → ((t : String) → AllIn names (list_at t edges))
    → AllIn names ts
    → unvisited names v ≤ fuel
    → check_all edges fuel ts v s ≢ err out_of_fuel
unfolding check_all
check_all_not_out names edges fuel [] v s known named few = λ e. cc
check_all_not_out names edges fuel (t ∷ ts) v s known named few = elim (Bool-cases (flag_at t v)) [
  | inl marked ↦
      rw (check_all, marked) (check_all_not_out names edges fuel ts v s known named.1 few)
  | inr fresh ↦
      rw (check_all, fresh)
        (bind_not_out v (dfs_cycle_check edges fuel t v s) (λ r. check_all edges fuel ts r.0 r.1)
          (dfs_cycle_check-IsGood names edges fuel known t v s named.0 fresh few)
          (λ r grows.
            check_all_not_out names edges fuel ts r.0 r.1 known named.1
              (omega (arith, unvisited-Grows names v r.0 grows, few))))
]

contains-dependencies :
    (es : List (String × List String)) (t x : String)
    → contains (list_at t es) x ≡ true
    → contains (dependencies es) x ≡ true
unfolding dependencies Map.get
contains-dependencies [] t x h = absurd (cc)
contains-dependencies ((k, ds) ∷ es) t x h =
    ground (arith, contains-append ds (dependencies es) x, contains-dependencies es t x)

AllIn-of :
    (names ds : List String)
    → ((x : String) → contains ds x ≡ true → contains names x ≡ true)
    → AllIn names ds
AllIn-of names [] h = tt
AllIn-of names (d ∷ ds) h =
    (h d (ground (arith, ==_refl d)), AllIn-of names ds (λ x k. h x (ground arith)))

unvisited_le : (names : List String) (v : Marks) → unvisited names v ≤ length names
unvisited_le [] v = omega arith
unvisited_le (n ∷ names) v = ground (arith, unvisited_le names v)

-- The search for cycles ends: on every graph the fuel suffices, so that the result is a success or
-- an error of the program.
pub detect_cycles_terminates :
    {R : Type 0} (g : TaskDependencyGraph R) → detect_cycles g ≢ err out_of_fuel
unfolding detect_cycles
detect_cycles_terminates g =
    let names = Map.keys g.tasks ++ dependencies g.edges in
    check_all_not_out names g.edges (suc (length names)) (Map.keys g.tasks) _ _
      (λ t. AllIn-of names (list_at t g.edges) (λ x h. ground (
        arith,
        contains-append (Map.keys g.tasks) (dependencies g.edges) x,
        contains-dependencies g.edges t x h,
      )))
      (AllIn-of names (Map.keys g.tasks)
        (λ x h. ground (arith, contains-append (Map.keys g.tasks) (dependencies g.edges) x)))
      (omega (arith, unvisited_le names (map (λ t. (t.0, false)) g.tasks)))
