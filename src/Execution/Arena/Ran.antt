-- ===== src/Execution/Arena/Ran.antt =====
-- The results that the arena run of src/execution.rs may collect, as a relation.
use mathlib.Core.List.{append-nil, append_assoc}
use snp.Prelude.{
  ◌++◌, ◌∙◌, sym, ap, Bool-cases, inl, inr, ℕ, suc, ◌+◌, ◌≡◌, ◌≤◌, refl, subst, arith, true, false,
  not, ◌&&◌, if_ind, nat_eq, List, [], ◌∷◌, length, Result, ok,
}
use snp.Prelude.Stateful.{and_then-ok}
use snp.Core.Hook.{Hook, runs_for_stage}
use snp.Execution.HookResult
use snp.Execution.HookResult.{HookExecutionResult}
use snp.Execution.Sequential.{ExecutionConfig}
use snp.Execution.Engine.{Host, Engine, SnpError}
use snp.Execution.Arena.{ArenaRun, push_result, count_result, execute_filtered, run_arena}

module _ {S Env Dependency Code Failure Fault : Type 0}
    (host : Host S Env Dependency Code Failure Fault) (config : ExecutionConfig) where
  -- The results that a run may give, one for each hook up to the one that ends it, and how many of
  -- the executed hooks did not succeed.
  pub data Ran
      : List Hook
        → Engine S Env Code Failure
        → Engine S Env Code Failure
        → List (HookExecutionResult Code Failure)
        → ℕ
        → Type 0 where
    ended : (engine : Engine S Env Code Failure) → Ran [] engine engine [] 0
    other_stage :
        {hook : Hook} {hooks : List Hook} {engine engine' : Engine S Env Code Failure}
        {rs : List (HookExecutionResult Code Failure)} {n : ℕ}
        → runs_for_stage hook config.stage ≡ false
        → Ran hooks engine engine' rs n
        → Ran (hook ∷ hooks) engine engine' (HookResult.new hook.id ∷ rs) n
    passed :
        {hook : Hook} {hooks : List Hook} {engine later engine' : Engine S Env Code Failure}
        {r : HookExecutionResult Code Failure} {rs : List (HookExecutionResult Code Failure)}
        {n : ℕ}
        → runs_for_stage hook config.stage ≡ true
        → execute_filtered host hook config engine ≡ (later, ok r)
        → r.success ≡ true
        → Ran hooks later engine' rs n
        → Ran (hook ∷ hooks) engine engine' (r ∷ rs) n
    went_on :
        {hook : Hook} {hooks : List Hook} {engine later engine' : Engine S Env Code Failure}
        {r : HookExecutionResult Code Failure} {rs : List (HookExecutionResult Code Failure)}
        {n : ℕ}
        → runs_for_stage hook config.stage ≡ true
        → execute_filtered host hook config engine ≡ (later, ok r)
        → r.success ≡ false
        → config.fail_fast ≡ false
        → Ran hooks later engine' rs n
        → Ran (hook ∷ hooks) engine engine' (r ∷ rs) (suc n)
    stopped :
        {hook : Hook} {hooks : List Hook} {engine later : Engine S Env Code Failure}
        {r : HookExecutionResult Code Failure}
        → runs_for_stage hook config.stage ≡ true
        → execute_filtered host hook config engine ≡ (later, ok r)
        → r.success ≡ false
        → config.fail_fast ≡ true
        → Ran (hook ∷ hooks) engine later (r ∷ []) 1

  pub Ran-length :
      {hooks : List Hook} {engine engine' : Engine S Env Code Failure}
      {rs : List (HookExecutionResult Code Failure)} {n : ℕ}
      → Ran hooks engine engine' rs n
      → (length rs ≤ length hooks) × (config.fail_fast ≡ false → length rs ≡ length hooks)
  Ran-length (ended e) = (omega arith, λ off. refl)
  Ran-length (other_stage stage run) =
      let (le, whole) = Ran-length run in (omega arith, λ off. omega (arith, whole off))
  Ran-length (passed stage made good run) =
      let (le, whole) = Ran-length run in (omega arith, λ off. omega (arith, whole off))
  Ran-length (went_on stage made bad off run) =
      let (le, whole) = Ran-length run in (omega arith, λ off. omega (arith, whole off))
  Ran-length (stopped stage made bad on) = (omega arith, λ off. absurd (cc))

  -- What the loop adds to its variables.
  abbrev pub Continues :
      List Hook
      → Engine S Env Code Failure
      → Engine S Env Code Failure
      → ArenaRun Code Failure
      → ArenaRun Code Failure
      → Type 0
  Continues hooks engine engine' run made =
      (rs : List (HookExecutionResult Code Failure)) × (n : ℕ) × Ran hooks engine engine' rs n
      × (made.results ≡ run.results ++ rs)
      × (made.failure_count ≡ run.failure_count + n)

  abbrev ArenaStep : Type 0
  ArenaStep = Engine S Env Code Failure × Result (SnpError Fault) (ArenaRun Code Failure)

  pushed_results :
      (r : HookExecutionResult Code Failure) (rs : List (HookExecutionResult Code Failure))
      (run : ArenaRun Code Failure)
      → (push_result r run).results ++ rs ≡ run.results ++ (r ∷ rs)
  unfolding push_result
  pushed_results r rs run = append_assoc run.results (r ∷ []) rs

  pushed_failures :
      (r : HookExecutionResult Code Failure) (n : ℕ) (run : ArenaRun Code Failure)
      → (push_result r run).failure_count + n ≡ run.failure_count + n
  unfolding push_result
  pushed_failures r n run = refl

  -- The first failure under fail-fast ends the loop.
  stopped-Continues :
      (hook : Hook) (hooks : List Hook) (r : HookExecutionResult Code Failure)
      (run made : ArenaRun Code Failure) (engine later engine' : Engine S Env Code Failure)
      → runs_for_stage hook config.stage ≡ true
      → execute_filtered host hook config engine ≡ (later, ok r)
      → (not r.success && config.fail_fast) ≡ true
      → ◌≡◌ {A = ArenaStep} (later, ok (push_result r (count_result r run))) (engine', ok made)
      → Continues (hook ∷ hooks) engine engine' run made
  unfolding push_result count_result
  stopped-Continues hook hooks r run made engine later engine' stage found stop e =
      let bad : r.success ≡ false = ground arith in
      let on : config.fail_fast ≡ true = ground arith in
      let same : push_result r (count_result r run) ≡ made = cc in
      let same' : later ≡ engine' = cc in
      (
        r ∷ [],
        1,
        subst (λ (x : Engine S Env Code Failure). Ran (hook ∷ hooks) engine x (r ∷ []) 1) same'
            (stopped stage found bad on),
        ground (arith, ap (λ (x : ArenaRun Code Failure). x.results) same),
        ground (arith, ap (λ (x : ArenaRun Code Failure). x.failure_count) same),
      )

  -- The cases of an executed hook; `more` is the rest of the loop.
  executed-Continues :
      (hook : Hook) (hooks : List Hook) (r : HookExecutionResult Code Failure)
      (run made : ArenaRun Code Failure) (engine later engine' : Engine S Env Code Failure)
      → runs_for_stage hook config.stage ≡ true
      → execute_filtered host hook config engine ≡ (later, ok r)
      → (not r.success && config.fail_fast) ≡ false
      → Continues hooks later engine' (push_result r (count_result r run)) made
      → Continues (hook ∷ hooks) engine engine' run made
  unfolding push_result count_result
  executed-Continues hook hooks r run made engine later engine' stage found go
        (rs, n, ran, results, failures) =
      let kept : made.results ≡ run.results ++ (r ∷ rs) =
        results
        ∙ (if_ind
            (λ (x : ArenaRun Code Failure). (x.results ++ r ∷ []) ++ rs ≡ run.results ++ (r ∷ rs))
            r.success (λ _. append_assoc run.results (r ∷ []) rs)
            (λ _. append_assoc run.results (r ∷ []) rs)) in
      elim (Bool-cases r.success) [
        | inl good ↦ (r ∷ rs, n, passed stage found good ran, kept, ground arith)
        | inr bad ↦ (r ∷ rs, suc n, went_on stage found bad (ground arith) ran, kept, ground arith)
      ]

  pub run_arena-Continues :
      (hooks : List Hook) (run made : ArenaRun Code Failure)
      (engine engine' : Engine S Env Code Failure)
      → run_arena host config hooks run engine ≡ (engine', ok made)
      → Continues hooks engine engine' run made
  unfolding run_arena
  run_arena-Continues [] run made engine engine' e =
      let same : run ≡ made = cc in
      let same' : engine ≡ engine' = cc in
      (
        [],
        0,
        subst (λ (x : Engine S Env Code Failure). Ran [] engine x [] 0) same' (ended engine),
        ap (λ (x : ArenaRun Code Failure). x.results) (sym same) ∙ sym (append-nil run.results),
        ground (arith, ap (λ (x : ArenaRun Code Failure). x.failure_count) same),
      )
  run_arena-Continues (hook ∷ hooks) run made engine engine' e =
      if_ind
        (λ (p : ArenaStep).
          p ≡ (engine', ok made) → Continues (hook ∷ hooks) engine engine' run made)
        (not (runs_for_stage hook config.stage))
        (λ other e'.
          let (rs, n, ran, results, failures) =
            run_arena-Continues hooks (push_result (HookResult.new hook.id) run) made engine engine'
              e' in
          (
            HookResult.new hook.id ∷ rs,
            n,
            other_stage (ground arith) ran,
            results ∙ pushed_results (HookResult.new hook.id) rs run,
            failures ∙ pushed_failures (HookResult.new hook.id) n run,
          ))
        (λ stage e'.
          let (r, s, found, e'') = and_then-ok (execute_filtered host hook config engine) _ e' in
          let run' = push_result r (count_result r run) in
          let right_stage : runs_for_stage hook config.stage ≡ true = ground arith in
          if_ind
            (λ (p : ArenaStep).
              p ≡ (engine', ok made) → Continues (hook ∷ hooks) engine engine' run made)
            (not r.success && config.fail_fast)
            (λ stop ended_here.
              stopped-Continues hook hooks r run made engine s engine' right_stage found stop
                ended_here)
            (λ go e₃.
              executed-Continues hook hooks r run made engine s engine' right_stage found go
                (run_arena-Continues hooks run' made s engine' e₃))
            e'')
        e
