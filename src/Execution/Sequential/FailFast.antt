-- ===== src/Execution/Sequential/FailFast.antt =====
-- `fail_fast` in a sequential run (src/execution.rs).
use snp.Prelude.{
  ℕ, suc, ◌≡◌, ◌≤◌, refl, ◌∙◌, true, false, not, ◌&&◌, List, [], ◌∷◌, ◌++◌, map, length,
  length-append, is_empty, arith, if_ind,
}
use mathlib.Core.List.{append-nil, append_assoc}
use snp.Core.Hook.{Hook}
use snp.Execution.Outcome
use snp.Execution.Outcome.{ExecutionResult}
use snp.Execution.Sequential.{
  ExecutionConfig, Runner, step, run_from, execute_hooks_sequential, settle,
}
use snp.Execution.Sequential.Tally.{IsTally, new-IsTally, step-IsTally}

length_of_is_empty : {A : Type 0} (xs : List A) → is_empty xs ≡ true → length xs ≡ 0
length_of_is_empty [] h = refl
length_of_is_empty (x ∷ xs) h = absurd (cc)

module _ {S Code Failure Fault : Type 0} (runner : Runner S Code Failure Fault)
    (config : ExecutionConfig) (fast : config.fail_fast ≡ true) where
  step_skips :
      (hook : Hook) (s : S) (t : ExecutionResult Code Failure)
      → t.success ≡ false
      → step runner config hook s t ≡ (s, Outcome.add_skipped hook.id t)
  unfolding step
  step_skips hook s t failed = ground arith

  -- With `fail_fast`, once a hook has failed, the rest of the hooks are skipped in order: the
  -- engine is not called again, and nothing else of the tally changes.
  pub run_from_failed :
      (hooks : List Hook) (s : S) (t : ExecutionResult Code Failure)
      → t.success ≡ false
      → run_from runner config hooks s t
        ≡ (s, record t { hooks_skipped = t.hooks_skipped ++ map (λ h. h.id) hooks })
  unfolding run_from step Outcome.add_skipped
  run_from_failed [] s t failed = rw append-nil
  run_from_failed (hook ∷ hooks) s t failed =
      rw (step_skips hook s t failed)
        (run_from_failed hooks s (Outcome.add_skipped hook.id t) failed ∙ rw append_assoc refl)

  step_failures :
      (hook : Hook) (s : S) (n : ℕ) (t : ExecutionResult Code Failure)
      → IsTally n t
      → length t.hooks_failed ≤ 1
      → length (step runner config hook s t).1.hooks_failed ≤ 1
  unfolding step Outcome.add_skipped Outcome.add_result
  step_failures hook s n t inv h =
      if_ind (λ (p : S × ExecutionResult Code Failure). length p.1.hooks_failed ≤ 1)
        (config.fail_fast && not t.success) (λ _. h)
        (λ going.
          let none_failed : length t.hooks_failed ≡ 0 =
            length_of_is_empty t.hooks_failed (ground arith) in
          if_ind (λ (p : S × ExecutionResult Code Failure). length p.1.hooks_failed ≤ 1)
            (is_empty config.files && not hook.always_run) (λ _. h)
            (λ _.
              let (s', r) = runner.execute_single_hook hook config s in
              let r' = settle runner hook r in
              if_ind (λ (u : ExecutionResult Code Failure). length u.hooks_failed ≤ 1) r'.skipped
                (λ _. h)
                (λ _.
                  if_ind (λ (u : ExecutionResult Code Failure). length u.hooks_failed ≤ 1)
                    r'.success (λ _. h)
                    (λ _. omega (arith, length-append {0} t.hooks_failed (r' ∷ []))))))

  run_from_failures :
      (hooks : List Hook) (s : S) (n : ℕ) (t : ExecutionResult Code Failure)
      → IsTally n t
      → length t.hooks_failed ≤ 1
      → length (run_from runner config hooks s t).1.hooks_failed ≤ 1
  unfolding run_from
  run_from_failures [] s n t inv h = h
  run_from_failures (hook ∷ hooks) s n t inv h =
      let (s', t') = step runner config hook s t in
      run_from_failures hooks s' (suc n) t' (step-IsTally runner config hook s n t inv)
        (step_failures hook s n t inv h)

  -- With `fail_fast` at most one hook fails, whatever the hooks do.
  pub execute_hooks_sequential_fail_fast :
      (hooks : List Hook) (s : S)
      → length (execute_hooks_sequential runner config hooks s).1.hooks_failed ≤ 1
  unfolding execute_hooks_sequential
  execute_hooks_sequential_fail_fast hooks s =
      run_from_failures hooks s 0 Outcome.new new-IsTally (omega arith)
