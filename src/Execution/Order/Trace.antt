-- ===== src/Execution/Order/Trace.antt =====
-- The calls that a run of src/execution.rs makes for hooks that depend on one another.
use mathlib.Core.List.{append-nil, append_assoc}
use snp.Prelude.{
  ◌+◌, ◌≡◌, ◌≤◌, ◌<◌, refl, sym, ap, ◌∙◌, true, false, not, ◌&&◌, List, [], ◌∷◌, ◌++◌, String,
  string_eq, ==_refl, if◌then◌else◌, contains, count, count_of_contains, count-append, is_empty, ok,
  bind-ok, arith, if_ind,
}
use snp.Core.Hook.{Hook}
use snp.Concurrency.Graph.Pending.{edge_count}
use snp.Concurrency.Graph.Drain.{IsOrdered}
use snp.Execution.Outcome
use snp.Execution.Outcome.{ExecutionResult}
use snp.Execution.Sequential.{ExecutionConfig, Runner, step, run_from, execute_hooks_sequential}
use snp.Execution.Order.{has_dependencies, resolve_hook_dependencies, use_parallel, execute_hooks}
use snp.Execution.Order.Sorted.{declared, ids, resolve_hook_dependencies-sorted}

-- A list that leaves out some of another.
pub data IsPart : List String → List String → Type 0 where
  all_done : IsPart [] []
  left_out : {x : String} {xs ys : List String} → IsPart xs ys → IsPart xs (x ∷ ys)
  kept : {x : String} {xs ys : List String} → IsPart xs ys → IsPart (x ∷ xs) (x ∷ ys)

contains-IsPart :
    {xs ys : List String} (a : String) → IsPart xs ys → contains xs a ≡ true → contains ys a ≡ true
contains-IsPart a all_done h = h
contains-IsPart a (left_out p) h = ground (arith, contains-IsPart a p)
contains-IsPart a (kept p) h = ground (arith, contains-IsPart a p)

count-IsPart : {xs ys : List String} (a : String) → IsPart xs ys → count a xs ≤ count a ys
count-IsPart a all_done = omega arith
count-IsPart a (left_out p) = ground (arith, count-IsPart a p)
count-IsPart a (kept p) = ground (arith, count-IsPart a p)

-- Behind the call of a hook there is none of a hook that it depends on, nor of itself.
abbrev pub InOrder : List (String × List String) → List String → Type 0
InOrder es [] = Unit
InOrder es (x ∷ xs) =
    ((d : String) → 0 < edge_count es x d → contains (x ∷ xs) d ≡ false)
    × (contains xs x ≡ false)
    × InOrder es xs

-- What stands in an order once, behind all that it depends on.
IsOrdered-InOrder :
    (es : List (String × List String)) (seen xs : List String)
    → ((a : String) → count a seen + count a xs ≤ 1)
    → IsOrdered es seen xs
    → InOrder es xs
IsOrdered-InOrder es seen [] once h = tt
IsOrdered-InOrder es seen (x ∷ xs) once h = (
  λ d edge. ground (
    arith,
    h.0 d edge,
    once d,
    count_of_contains d seen,
    count_of_contains d xs,
    count_of_contains d (x ∷ xs),
  ),
  ground (arith, once x, count_of_contains x xs, ==_refl x),
  IsOrdered-InOrder es (seen ++ x ∷ []) xs
      (λ a. ground (arith, once a, count-append a seen (x ∷ []))) h.1,
)

IsPart-InOrder :
    (es : List (String × List String)) {xs ys : List String}
    → IsPart xs ys
    → InOrder es ys
    → InOrder es xs
IsPart-InOrder es all_done h = h
IsPart-InOrder es (left_out p) h = IsPart-InOrder es p h.2
IsPart-InOrder es (kept {x} {xs} p) h = (
  λ d edge. ground (arith, h.0 d edge, contains-IsPart d p),
  ground (arith, h.1, contains-IsPart x p),
  IsPart-InOrder es p h.2,
)

-- The calls of a run of `hooks`.
pub record AreCalls (config : ExecutionConfig) (hooks : List Hook) (calls : List String)
    : Type 0 where
  pub in_order : InOrder (declared hooks) calls
  pub known : (id : String) → contains calls id ≡ true → contains (ids hooks) id ≡ true
  pub complete :
      config.fail_fast ≡ false
      → is_empty config.files ≡ false
      → (id : String) → count id calls ≡ (if contains (ids hooks) id then 1 else 0)

module _ {S Code Failure Fault : Type 0} (runner : Runner S Code Failure Fault) where
  -- The same hooks with a record of the calls.
  abbrev pub traced : Runner (S × List String) Code Failure Fault
  traced = record {
    execute_single_hook = λ hook config s.
        let (s', r) = runner.execute_single_hook hook config s.0 in ((s', s.1 ++ hook.id ∷ []), r);
    minus_one = runner.minus_one;
    environment_setup_failed = runner.environment_setup_failed;
  }

  -- One step calls its hook or none; it always does where nothing is left out.
  abbrev Called : ExecutionConfig → String → List String → List String → Type 0
  Called config id before after =
      (l : List String) × (after ≡ before ++ l)
      × IsPart l (id ∷ [])
      × (config.fail_fast ≡ false → is_empty config.files ≡ false → l ≡ id ∷ [])

  step-Called :
      (config : ExecutionConfig) (hook : Hook) (s : S × List String)
      (t : ExecutionResult Code Failure)
      → Called config hook.id s.1 (step traced config hook s t).0.1
  unfolding step
  step-Called config hook s t =
      if_ind
        (λ (p : (S × List String) × ExecutionResult Code Failure). Called config hook.id s.1 p.0.1)
        (config.fail_fast && not t.success)
        (λ stop.
          ([], sym (append-nil s.1), left_out all_done, λ off some_files. absurd (ground arith)))
        (λ go.
          if_ind
            (λ (p : (S × List String) × ExecutionResult Code Failure).
              Called config hook.id s.1 p.0.1)
            (is_empty config.files && not hook.always_run)
            (λ no_files. (
              [],
              sym (append-nil s.1),
              left_out all_done,
              λ off some_files. absurd (ground arith),
            ))
            (λ files. (hook.id ∷ [], refl, kept all_done, λ off some_files. refl)))

  IsPart-cons :
      {x : String} {l xs ys : List String}
      → IsPart l (x ∷ [])
      → IsPart xs ys
      → IsPart (l ++ xs) (x ∷ ys)
  IsPart-cons (left_out all_done) p = left_out p
  IsPart-cons (kept all_done) p = kept p

  run_from-calls :
      (config : ExecutionConfig) (hooks : List Hook) (s : S × List String)
      (t : ExecutionResult Code Failure)
      → (l : List String) × ((run_from traced config hooks s t).0.1 ≡ s.1 ++ l)
        × IsPart l (ids hooks)
        × (config.fail_fast ≡ false → is_empty config.files ≡ false → l ≡ ids hooks)
  unfolding run_from
  run_from-calls config [] s t = ([], sym (append-nil s.1), all_done, λ off some_files. refl)
  run_from-calls config (hook ∷ hooks) s t =
      let (l, e, part, whole) = step-Called config hook s t in
      let p = step traced config hook s t in
      let (l', e', part', whole') = run_from-calls config hooks p.0 p.1 in
      (
        l ++ l',
        e' ∙ (ap (λ (xs : List String). xs ++ l') e ∙ append_assoc s.1 l l'),
        IsPart-cons part part',
        λ off some_files. rw (whole off some_files, whole' off some_files) refl,
      )

  -- In a run where some hook has dependencies, whatever the parallel run does: only hooks of the run
  -- are called, none twice, and behind the call of a hook none that it depends on is called. Without
  -- fail-fast, and where the run has files, each id is called exactly once.
  pub execute_hooks-AreCalls :
      (parallel : ExecutionConfig
        → List Hook
        → S × List String
        → (S × List String) × ExecutionResult Code Failure)
      (config : ExecutionConfig) (hooks : List Hook) (s s' : S) (calls : List String)
      (t : ExecutionResult Code Failure)
      → has_dependencies hooks ≡ true
      → execute_hooks traced parallel config hooks (s, []) ≡ ok ((s', calls), t)
      → AreCalls config hooks calls
  unfolding execute_hooks execute_hooks_sequential
  execute_hooks-AreCalls parallel config hooks s s' calls t some_deps h =
      let (ordered, resolved, run) =
        bind-ok (resolve_hook_dependencies hooks)
          (λ ordered. ok (
            if use_parallel config hooks
            then parallel config ordered (s, [])
            else execute_hooks_sequential traced config ordered (s, [])))
          h in
      let (l, e, part, whole) = run_from-calls config ordered (s, []) Outcome.new in
      let q : run_from traced config ordered (s, []) Outcome.new ≡ ((s', calls), t) =
        ground arith in
      let same : calls ≡ l =
        sym (ap (λ (p : (S × List String) × ExecutionResult Code Failure). p.0.1) q) ∙ e in
      let (sorted, once) = resolve_hook_dependencies-sorted hooks ordered some_deps resolved in
      rw same (record {
        in_order = IsPart-InOrder (declared hooks) part (
            IsOrdered-InOrder (declared hooks) [] (ids ordered) (λ a. ground (arith, once a))
              sorted);
        known = λ id called.
            ground
              (arith, once id, contains-IsPart id part called, count_of_contains id (ids ordered));
        complete = λ off some_files id. rw (whole off some_files) (once id);
      })
