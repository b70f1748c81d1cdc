-- ===== src/Chaining/Executor/Invariant.antt =====
-- What every phase of `execute_chain` of src/hook_chaining.rs keeps.
use snp.Prelude.{
  ◌≡◌, refl, sym, Bool, true, not, ◌&&◌, List, [], ◌∷◌, Option, none, some, String, string_eq,
  is_empty, length, all, arith, if_ind, ℕ, subst,
}
use snp.Prelude.Partial.{Always, Always-bind}
use snp.Chaining.{ChainedHook, FailureStrategy}
use snp.Chaining.Conditions.{HookResult, World, evaluate_conditions}
use snp.Chaining.Single.{execute_single_hook_with_behavior}
use snp.Chaining.Single.Laws.{IsRunOf, single_hook-IsRunOf}
use snp.Chaining.Planner.{PhaseExecutionMode, sequential, parallel, pipeline, ExecutionPhase}
use snp.Chaining.Executor.{
  ChainState, PhaseResult, ChainExecutionResult, find_hook, all_deps_ok, after_hook, consider,
  select_hooks, run_hooks, run_mode, run_phase, run_phases, skip_one, skip_remaining, skip_phases,
  with_result, skip_hook, note_failed, failed_deps, or_true, stops_phase, never_breaks, push_phase,
  is_fail_fast,
}
use snp.Chaining.Executor.Results.{
  IsConsistent, runnable, all_deps_ok-succeeded, find_hook-id, after_hook-IsConsistent,
  runnable-after_hook, all_mono, all-snoc,
}

-- The hooks that a phase has selected, and the locals.
record IsSelected (hooks : List ChainedHook) (acc : List ChainedHook × ChainState) : Type 0 where
  consistent : IsConsistent hooks acc.1
  ready : all (runnable hooks acc.1) acc.0 ≡ true

module _ (hooks : List ChainedHook) where
  skip_hook-IsConsistent :
      (id : String) (s : ChainState)
      → IsConsistent hooks s
      → IsConsistent hooks (with_result s (skip_hook id s.result))
  skip_hook-IsConsistent id s c = record {
    ordered = c.ordered;
    executed = c.executed;
    failed = c.failed;
    success = c.success;
  }

  note_failed-IsConsistent :
      (id : String) (deps : List String) (s : ChainState)
      → IsConsistent hooks s
      → IsConsistent hooks (with_result s (note_failed id deps (skip_hook id s.result)))
  note_failed-IsConsistent id deps s c = record {
    ordered = c.ordered;
    executed = c.executed;
    failed = c.failed;
    success = c.success;
  }

  push_phase-IsConsistent :
      (acc : ChainState × PhaseResult)
      → IsConsistent hooks acc.0
      → IsConsistent hooks (push_phase acc)
  push_phase-IsConsistent (s, p) c = record {
    ordered = c.ordered;
    executed = c.executed;
    failed = c.failed;
    success = c.success;
  }

  skip_one-IsConsistent :
      (id : String) (o : Option ChainedHook) (s : ChainState)
      → IsConsistent hooks s
      → IsConsistent hooks (skip_one id o s)
  skip_one-IsConsistent id none s c = skip_hook-IsConsistent id s c
  skip_one-IsConsistent id (some h) s c =
      if_ind (λ (r : ChainExecutionResult). IsConsistent hooks (with_result s r))
        (is_empty (failed_deps s h)) (λ _. skip_hook-IsConsistent id s c)
        (λ _. note_failed-IsConsistent id (failed_deps s h) s c)

  skip_remaining-IsConsistent :
      (ids : List String) (s : ChainState)
      → IsConsistent hooks s
      → IsConsistent hooks (skip_remaining hooks ids s)
  unfolding skip_remaining
  skip_remaining-IsConsistent [] s c = c
  skip_remaining-IsConsistent (id ∷ ids) s c =
      skip_remaining-IsConsistent ids _ (skip_one-IsConsistent id (find_hook id hooks) s c)

  skip_phases-IsConsistent :
      (ps : List ExecutionPhase) (s : ChainState)
      → IsConsistent hooks s
      → IsConsistent hooks (skip_phases hooks ps s)
  unfolding skip_phases
  skip_phases-IsConsistent [] s c = c
  skip_phases-IsConsistent (p ∷ ps) s c =
      skip_phases-IsConsistent ps _ (skip_remaining-IsConsistent p.hooks s c)

  module _ (world : World) (elapsed : ℕ → ℕ) where
    consider-IsSelected :
        (id : String) (o : Option ChainedHook) (acc : List ChainedHook × ChainState)
        → find_hook id hooks ≡ o
        → IsSelected hooks acc
        → IsSelected hooks (consider world elapsed id o acc)
    consider-IsSelected id none (hs, t) e sel = sel
    consider-IsSelected id (some h) (hs, t) e sel =
        let found : find_hook h.hook.id hooks ≡ some h =
          subst (λ (i : String). find_hook i hooks ≡ some h) (sym (find_hook-id id hooks h e)) e in
        if_ind (λ (acc : List ChainedHook × ChainState). IsSelected hooks acc) (all_deps_ok t h)
          (λ ok_deps.
            if_ind (λ (acc : List ChainedHook × ChainState). IsSelected hooks acc)
              (or_true (evaluate_conditions world h.conditions))
              (λ _. record {
                consistent = sel.consistent;
                ready =
                    rw (all-snoc (runnable hooks t) hs h, sel.ready, found)
                      (all_deps_ok-succeeded hooks t h sel.consistent ok_deps);
              })
              (λ _. record {
                consistent = skip_hook-IsConsistent id t sel.consistent;
                ready = sel.ready;
              }))
          (λ _. record {
            consistent = note_failed-IsConsistent id (failed_deps t h) t sel.consistent;
            ready = sel.ready;
          })

    select_hooks-IsSelected :
        (ids : List String) (acc : List ChainedHook × ChainState)
        → IsSelected hooks acc
        → IsSelected hooks (select_hooks world elapsed hooks ids acc)
    unfolding select_hooks
    select_hooks-IsSelected [] acc sel = sel
    select_hooks-IsSelected (id ∷ ids) acc sel =
        select_hooks-IsSelected ids _ (consider-IsSelected id (find_hook id hooks) acc refl sel)

    run_hooks-IsConsistent :
        (breaks : ChainedHook → HookResult → Bool) (hs : List ChainedHook)
        (acc : ChainState × PhaseResult)
        → IsConsistent hooks acc.0
        → all (runnable hooks acc.0) hs ≡ true
        → Always (λ done. IsConsistent hooks done.0) (run_hooks world elapsed breaks hs acc)
    unfolding run_hooks
    run_hooks-IsConsistent breaks [] acc c ready = c
    run_hooks-IsConsistent breaks (h ∷ hs) (s, p) c ready =
        Always-bind (IsRunOf h) (λ (done : ChainState × PhaseResult). IsConsistent hooks done.0)
          (execute_single_hook_with_behavior elapsed h) _ (single_hook-IsRunOf elapsed h)
          (λ r run.
            let next : IsConsistent hooks (after_hook h r (s, p)).0 =
              after_hook-IsConsistent hooks h r s p c (ground (arith, ready)) run.0 in
            if_ind
              (λ (o : Option (ChainState × PhaseResult)).
                Always (λ done. IsConsistent hooks done.0) o)
              (breaks h r) (λ _. next)
              (λ _. run_hooks-IsConsistent breaks hs (after_hook h r (s, p)) next (
                all_mono _ _ hs (λ x was. runnable-after_hook hooks h x r s p was)
                  (ground (arith, ready)))))

    run_mode-IsConsistent :
        (strategy : FailureStrategy) (mode : PhaseExecutionMode) (size : ℕ) (hs : List ChainedHook)
        (acc : ChainState × PhaseResult)
        → IsConsistent hooks acc.0
        → all (runnable hooks acc.0) hs ≡ true
        → Always
            (λ done. IsConsistent hooks done.0)
            (run_mode world elapsed strategy mode size hs acc)
    unfolding run_mode
    run_mode-IsConsistent strategy sequential size hs acc c ready =
        run_hooks-IsConsistent (stops_phase strategy) hs acc c ready
    run_mode-IsConsistent strategy (parallel _) size hs acc c ready =
        Always-bind (λ (done : ChainState × PhaseResult). IsConsistent hooks done.0)
          (λ (done : ChainState × PhaseResult). IsConsistent hooks done.0)
          (run_hooks world elapsed never_breaks hs acc) _
          (run_hooks-IsConsistent never_breaks hs acc c ready) (λ done d. d)
    run_mode-IsConsistent strategy (pipeline _) size hs acc c ready =
        run_hooks-IsConsistent never_breaks hs acc c ready

    run_phase-IsConsistent :
        (strategy : FailureStrategy) (phase : ExecutionPhase) (s : ChainState)
        → IsConsistent hooks s
        → Always (IsConsistent hooks) (run_phase world elapsed strategy hooks phase s)
    unfolding run_phase
    run_phase-IsConsistent strategy phase s c =
        let sel : IsSelected hooks (select_hooks world elapsed hooks phase.hooks ([], s)) =
          select_hooks-IsSelected phase.hooks ([], s) (record { consistent = c; ready = refl }) in
        Always-bind (λ (done : ChainState × PhaseResult). IsConsistent hooks done.0)
          (IsConsistent hooks) _ _
          (run_mode-IsConsistent strategy phase.execution_mode (length phase.hooks) _ _
            sel.consistent sel.ready)
          (λ done d. push_phase-IsConsistent done d)

    pub run_phases-IsConsistent :
        (strategy : FailureStrategy) (phases : List ExecutionPhase) (s : ChainState)
        → IsConsistent hooks s
        → Always (IsConsistent hooks) (run_phases world elapsed strategy hooks phases s)
    unfolding run_phases
    run_phases-IsConsistent strategy [] s c = c
    run_phases-IsConsistent strategy (phase ∷ phases) s c =
        Always-bind (IsConsistent hooks) (IsConsistent hooks)
          (run_phase world elapsed strategy hooks phase s) _
          (run_phase-IsConsistent strategy phase s c)
          (λ t d.
            if_ind (λ (o : Option ChainState). Always (IsConsistent hooks) o)
              (not t.result.success && is_fail_fast strategy)
              (λ _. skip_phases-IsConsistent phases t d)
              (λ _. run_phases-IsConsistent strategy phases t d))
