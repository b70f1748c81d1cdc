-- ===== src/Execution/Sequential/Tally.antt =====
-- What the tally of a sequential run (src/execution.rs) counts.
use snp.Prelude.{
  ℕ, suc, Bool, false, ◌+◌, ◌≡◌, ◌≤◌, refl, true, not, List, [], ◌∷◌, ◌++◌, String, length,
  length-append, is_empty, contains, count, count-append, count_of_absent, all, string_eq, ==_iff,
  arith, Bool-cases, inl, inr, if_ind, ◌&&◌,
}
use snp.Core.Hook.{Hook}
use snp.Execution.HookResult.{HookExecutionResult}
use snp.Execution.Outcome
use snp.Execution.Outcome.{ExecutionResult, note_files}
use snp.Execution.Sequential.{ExecutionConfig, Runner, step, settle}

-- A tally of `n` hooks: each stands in one list, success is the absence of failures, and no
-- modified file is noted twice.
pub record IsTally {Code Failure : Type 0} (n : ℕ) (t : ExecutionResult Code Failure) : Type 0 where
  pub counted : length t.hooks_passed + length t.hooks_failed + length t.hooks_skipped ≡ n
  pub executed : t.hooks_executed ≡ length t.hooks_passed + length t.hooks_failed
  pub succeeded : t.success ≡ is_empty t.hooks_failed
  pub all_passed : all (λ r. r.success) t.hooks_passed ≡ true
  pub all_failed : all (λ r. not r.success) t.hooks_failed ≡ true
  pub noted_once : (file : String) → count file t.files_modified ≤ 1

note_files-once :
    (files noted : List String)
    → ((file : String) → count file noted ≤ 1)
    → (file : String) → count file (note_files files noted) ≤ 1
unfolding note_files
note_files-once [] noted h file = h file
note_files-once (f ∷ files) noted h file = elim (Bool-cases (contains noted f)) [
  | inl old ↦ rw (old, note_files) (note_files-once files noted h file)
  | inr new ↦
      rw (new, note_files)
        (note_files-once files (noted ++ f ∷ [])
          (λ g.
            ground (arith, h g, count-append g noted (f ∷ []), ==_iff f g, count_of_absent f noted))
          file)
]

all_snoc :
    {A : Type 0} (p : A → Bool) (xs : List A) (x : A)
    → all p xs ≡ true
    → p x ≡ true
    → all p (xs ++ x ∷ []) ≡ true
all_snoc p [] x h k = ground arith
all_snoc p (y ∷ xs) x h k = ground (arith, all_snoc p xs x)

is_empty_snoc : {A : Type 0} (xs : List A) (x : A) → is_empty (xs ++ x ∷ []) ≡ false
is_empty_snoc [] x = refl
is_empty_snoc (y ∷ xs) x = refl

pub new-IsTally : {Code Failure : Type 0} → IsTally {Code = Code} {Failure = Failure} 0 Outcome.new
unfolding Outcome.new
new-IsTally = record {
  counted = omega arith;
  executed = omega arith;
  succeeded = refl;
  all_passed = refl;
  all_failed = refl;
  noted_once = λ file. omega arith;
}

module _ {Code Failure : Type 0} (n : ℕ) (t : ExecutionResult Code Failure)
    (inv : IsTally n t) where
  pub add_skipped-IsTally : (id : String) → IsTally (suc n) (Outcome.add_skipped id t)
  unfolding Outcome.add_skipped
  add_skipped-IsTally id = record {
    counted = omega (arith, inv.counted, length-append {0} t.hooks_skipped (id ∷ []));
    executed = inv.executed;
    succeeded = inv.succeeded;
    all_passed = inv.all_passed;
    all_failed = inv.all_failed;
    noted_once = inv.noted_once;
  }

  pub add_result-IsTally :
      (r : HookExecutionResult Code Failure) → IsTally (suc n) (Outcome.add_result r t)
  unfolding Outcome.add_result
  add_result-IsTally r =
      if_ind (IsTally (suc n)) r.success
        (λ good. record {
          counted = omega (arith, inv.counted, length-append {0} t.hooks_passed (r ∷ []));
          executed = omega (arith, inv.executed, length-append {0} t.hooks_passed (r ∷ []));
          succeeded = inv.succeeded;
          all_passed = all_snoc _ t.hooks_passed r inv.all_passed good;
          all_failed = inv.all_failed;
          noted_once = note_files-once r.files_modified t.files_modified inv.noted_once;
        })
        (λ bad. record {
          counted = omega (arith, inv.counted, length-append {0} t.hooks_failed (r ∷ []));
          executed = omega (arith, inv.executed, length-append {0} t.hooks_failed (r ∷ []));
          succeeded = ground (arith, is_empty_snoc t.hooks_failed r);
          all_passed = inv.all_passed;
          all_failed = all_snoc _ t.hooks_failed r inv.all_failed (ground arith);
          noted_once = note_files-once r.files_modified t.files_modified inv.noted_once;
        })

module _ {S Code Failure Fault : Type 0} (runner : Runner S Code Failure Fault)
    (config : ExecutionConfig) where
  pub step-IsTally :
      (hook : Hook) (s : S) (n : ℕ) (t : ExecutionResult Code Failure)
      → IsTally n t
      → IsTally (suc n) (step runner config hook s t).1
  unfolding step
  step-IsTally hook s n t inv =
      if_ind (λ (p : S × ExecutionResult Code Failure). IsTally (suc n) p.1)
        (config.fail_fast && not t.success) (λ _. add_skipped-IsTally n t inv hook.id)
        (λ _.
          if_ind (λ (p : S × ExecutionResult Code Failure). IsTally (suc n) p.1)
            (is_empty config.files && not hook.always_run)
            (λ _. add_skipped-IsTally n t inv hook.id)
            (λ _.
              let (s', r) = runner.execute_single_hook hook config s in
              if_ind (IsTally (suc n)) (settle runner hook r).skipped
                (λ _. add_skipped-IsTally n t inv hook.id)
                (λ _. add_result-IsTally n t inv (settle runner hook r))))
