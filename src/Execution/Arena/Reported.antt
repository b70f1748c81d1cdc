-- ===== src/Execution/Arena/Reported.antt =====
-- What the arena run of src/execution.rs reports of the results of its hooks.
use snp.Prelude.{
  map, retain, sym, ap, ℕ, ◌+◌, ◌≡◌, ◌≤◌, refl, subst, arith, Bool, true, false, not, ◌&&◌, ◌==◌,
  nat_eq, List, [], ◌∷◌, length, count_if, ok,
}
use snp.Prelude.Stateful.{and_then-ok}
use snp.Core.Hook.{Hook, unwrap_or}
use snp.Execution.HookResult
use snp.Execution.HookResult.{HookExecutionResult}
use snp.Execution.Outcome.{ExecutionResult}
use snp.Execution.Sequential.{ExecutionConfig}
use snp.Execution.Engine.{Host, Engine, elapsed}
use snp.Execution.Arena.{
  ArenaRun, passed_results, skipped_hooks, failed_results, summarize, run_arena,
  execute_hooks_arena_optimized,
}
use snp.Execution.Arena.Ran.{
  Ran, ended, other_stage, passed, went_on, stopped, Ran-length, run_arena-Continues,
}

module _ {Code Failure : Type 0} where
  -- A result that is neither a success nor an executed hook has no duration.
  abbrev pub is_fault : HookExecutionResult Code Failure → Bool
  is_fault r = not r.success && not (r.duration == 0)

  -- All other results that are no success.
  abbrev pub is_idle : HookExecutionResult Code Failure → Bool
  is_idle r = not r.success && (r.duration == 0)

  length-failed_results :
      (rs : List (HookExecutionResult Code Failure))
      → length (failed_results rs) ≡ count_if is_fault rs
  unfolding failed_results
  length-failed_results [] = refl
  length-failed_results (r ∷ rs) = ground (arith, length-failed_results rs)

  length-separated :
      (rs : List (HookExecutionResult Code Failure))
      → length (passed_results rs) + length (failed_results rs) + length (skipped_hooks rs)
        ≡ length rs
  unfolding passed_results failed_results skipped_hooks
  length-separated [] = refl
  length-separated (r ∷ rs) = ground (arith, length-separated rs)

  passed_results-retain :
      (rs : List (HookExecutionResult Code Failure))
      → passed_results rs ≡ retain (λ r. r.success) rs
  unfolding passed_results
  passed_results-retain [] = refl
  passed_results-retain (r ∷ rs) = ground (arith, passed_results-retain rs)

  failed_results-retain :
      (rs : List (HookExecutionResult Code Failure)) → failed_results rs ≡ retain is_fault rs
  unfolding failed_results
  failed_results-retain [] = refl
  failed_results-retain (r ∷ rs) = ground (arith, failed_results-retain rs)

  skipped_hooks-retain :
      (rs : List (HookExecutionResult Code Failure))
      → skipped_hooks rs ≡ map (λ r. r.hook_id) (retain is_idle rs)
  unfolding skipped_hooks
  skipped_hooks-retain [] = refl
  skipped_hooks-retain (r ∷ rs) = ground (arith, skipped_hooks-retain rs)

-- The report of a run of `n` hooks with the results `rs`, of which `failures` are of hooks that were
-- executed and did not succeed: each result is in the one list that its success and its duration
-- tell, in the order of the run.
pub record IsReport {Code Failure : Type 0} (fail_fast : Bool) (n : ℕ)
    (rs : List (HookExecutionResult Code Failure)) (failures : ℕ) (t : ExecutionResult Code Failure)
    : Type 0 where
  pub executed : t.hooks_executed ≡ n
  pub passed : t.hooks_passed ≡ retain (λ r. r.success) rs
  pub failed : t.hooks_failed ≡ retain is_fault rs
  pub skipped : t.hooks_skipped ≡ map (λ r. r.hook_id) (retain is_idle rs)
  pub bounded : length t.hooks_passed + length t.hooks_failed + length t.hooks_skipped ≤ n
  pub complete :
      fail_fast ≡ false → length t.hooks_passed + length t.hooks_failed + length t.hooks_skipped ≡ n
  pub succeeded : t.success ≡ (failures == 0)
  pub no_failure : t.success ≡ true → length t.hooks_failed ≡ 0

module _ {S Env Dependency Code Failure Fault : Type 0}
    (host : Host S Env Dependency Code Failure Fault) (config : ExecutionConfig) where
  Ran-faults :
      {hooks : List Hook} {engine engine' : Engine S Env Code Failure}
      {rs : List (HookExecutionResult Code Failure)} {n : ℕ}
      → Ran host config hooks engine engine' rs n
      → count_if is_fault rs ≤ n
  unfolding HookResult.new
  Ran-faults (ended e) = omega arith
  Ran-faults (other_stage stage run) = ground (arith, Ran-faults run)
  Ran-faults (passed stage made good run) = ground (arith, Ran-faults run)
  Ran-faults (went_on stage made bad off run) = ground (arith, Ran-faults run)
  Ran-faults (stopped stage made bad on) = ground arith

  summarize-IsReport :
      (hooks : List Hook) (duration n : ℕ) (engine engine' : Engine S Env Code Failure)
      (run : ArenaRun Code Failure)
      → Ran host config hooks engine engine' run.results n
      → run.failure_count ≡ n
      → IsReport config.fail_fast
          (length hooks)
          run.results
          n
          (summarize (length hooks) duration run)
  unfolding summarize
  summarize-IsReport hooks duration n engine engine' run ran same =
      let (le, whole) = Ran-length host config ran in
      record {
        executed = refl;
        passed = passed_results-retain run.results;
        failed = failed_results-retain run.results;
        skipped = skipped_hooks-retain run.results;
        bounded = omega (arith, length-separated run.results);
        complete = λ off. omega (arith, length-separated run.results, whole off);
        succeeded = ap (λ (k : ℕ). k == 0) same;
        no_failure = λ good.
            let none_failed : run.failure_count ≡ 0 = ground arith in
            omega (arith, length-failed_results run.results, Ran-faults ran);
      }

  abbrev nothing_run : ArenaRun Code Failure
  nothing_run = record { results = []; success_count = 0; failure_count = 0 }

  -- An arena run without an error has a result for each hook, up to the one whose failure ends it under
  -- fail-fast: that of an executed hook, or a fresh one for a hook of another stage. The passed hooks
  -- are the results that are a success; the failed ones those that are none and took time; the skipped
  -- ones are the rest. Without fail-fast every hook is in one list, once. The run is a success
  -- exactly if no executed hook lacked success, and then it has no failed hook.
  pub execute_hooks_arena_optimized-IsReport :
      (hooks : List Hook) (engine engine' : Engine S Env Code Failure)
      (t : ExecutionResult Code Failure)
      → execute_hooks_arena_optimized host hooks config engine ≡ (engine', ok t)
      → (rs : List (HookExecutionResult Code Failure)) × (failures : ℕ) × Ran host config hooks
          engine engine' rs failures
        × IsReport config.fail_fast (length hooks) rs failures t
  unfolding execute_hooks_arena_optimized
  execute_hooks_arena_optimized-IsReport hooks engine engine' t e =
      let (run, s, found, e') = and_then-ok (run_arena host config hooks nothing_run engine) _ e in
      let (rs, n, ran, results, failures) =
        run_arena-Continues host config hooks nothing_run run engine s found in
      let duration = unwrap_or (elapsed (host.now engine.world) (host.now s.world)) 0 in
      let same : summarize (length hooks) duration run ≡ t = cc in
      let same' : s ≡ engine' = cc in
      let ran' =
        subst (λ (x : List (HookExecutionResult Code Failure)). Ran host config hooks engine s x n)
          (sym results) ran in
      (
        run.results,
        n,
        subst (λ (x : Engine S Env Code Failure). Ran host config hooks engine x run.results n)
            same' ran',
        subst
            (λ (x : ExecutionResult Code Failure).
              IsReport config.fail_fast (length hooks) run.results n x)
            same (summarize-IsReport hooks duration n engine s run ran' (omega (arith, failures))),
      )
