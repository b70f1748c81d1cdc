-- ===== src/Chaining/Conditions/Laws.antt =====
-- When the conditions of src/hook_chaining.rs hold.
use snp.Prelude.{
  ◌≡◌, ◌≢◌, refl, Bool, true, false, List, [], ◌∷◌, none, some, String, any, Result, ok, err, ◌>>=◌,
  if◌then◌else◌, Bool-cases, inl, inr,
}
use snp.Prelude.Map
use snp.Chaining.{
  ExecutionCondition, file_exists, file_modified, environment_variable, previous_hook_success,
  previous_hook_output, git_branch, git_has_changes, custom,
}
use snp.Chaining.Conditions.{World, basic_context, evaluate, evaluate_conditions}

-- The conditions on hooks that ran before, and on the state of the git repository.
abbrev pub is_contextual : ExecutionCondition → Bool
is_contextual (previous_hook_success _) = true
is_contextual (previous_hook_output _ _) = true
is_contextual (git_branch _) = true
is_contextual (git_has_changes _) = true
is_contextual _ = false

evaluate-contextual :
    (world : World) (c : ExecutionCondition)
    → is_contextual c ≡ true
    → evaluate world c (basic_context world) ≡ ok false
unfolding evaluate Map.get
evaluate-contextual world (previous_hook_success id) h = refl
evaluate-contextual world (previous_hook_output id pattern) h = refl
evaluate-contextual world (git_branch pattern) h = refl
evaluate-contextual world (git_has_changes (some paths)) h = refl
evaluate-contextual world (git_has_changes none) h = refl
evaluate-contextual world (file_exists p) h = absurd (cc)
evaluate-contextual world (file_modified p t) h = absurd (cc)
evaluate-contextual world (environment_variable n v) h = absurd (cc)
evaluate-contextual world (custom e ps) h = absurd (cc)

step_not_true :
    (r : Result String Bool) (k : Result String Bool)
    → k ≢ ok true
    → (r >>= λ b. if b then k else ok false) ≢ ok true
step_not_true (ok true) k h = h
step_not_true (ok false) k h = λ e. cc
step_not_true (err m) k h = λ e. cc

-- Where one of a hook's conditions is on a hook that ran before (its success or its output), on the
-- branch or on the changes of the repository, the executor's evaluation of the conditions never
-- says that they hold, whatever the world is.
pub contextual_never_holds :
    (world : World) (cs : List ExecutionCondition)
    → any is_contextual cs ≡ true
    → evaluate_conditions world cs ≢ ok true
unfolding evaluate_conditions
contextual_never_holds world [] h = absurd (cc)
contextual_never_holds world (c ∷ cs) h = elim (Bool-cases (is_contextual c)) [
  | inl here ↦ rw (evaluate-contextual world c here) (λ e. cc)
  | inr other ↦
      step_not_true (evaluate world c (basic_context world)) (evaluate_conditions world cs)
        (contextual_never_holds world cs (rw other at h))
]
