-- ===== src/Chaining/Single/Laws.antt =====
-- What `execute_single_hook_with_behavior` of src/hook_chaining.rs returns.
use snp.Prelude.{
  ℕ, zero, suc, ◌+◌, ◌≡◌, refl, true, ◌||◌, Option, none, some, string_eq, if◌then◌else◌, arith,
  if_ind,
}
use snp.Prelude.Partial.{Always}
use snp.Chaining.{ChainedHook}
use snp.Chaining.Conditions.{HookResult}
use snp.Chaining.Single.{
  attempts_of, is_tolerant, simulated_success, times_out, timeout_result, attempt_result,
  attempt_loop, execute_single_hook_with_behavior,
}

-- A result of this hook, as its command and its timeout say.
abbrev pub IsRunOf : ChainedHook → HookResult → Type 0
IsRunOf h r = (r.hook_id ≡ h.hook.id) × (r.success ≡ simulated_success h)

-- What some number of attempts give: no attempt is a panic, and any other number is a result.
abbrev pub Gives : ChainedHook → ℕ → Option HookResult → Type 0
Gives h zero none = Unit
Gives h zero (some r) = ⊥
Gives h (suc n) none = ⊥
Gives h (suc n) (some r) = IsRunOf h r

abbrev IsSome : ChainedHook → Option HookResult → Type 0
IsSome h none = ⊥
IsSome h (some r) = IsRunOf h r

some-Gives : (h : ChainedHook) (n : ℕ) (o : Option HookResult) → IsSome h o → Gives h (suc n) o
some-Gives h n none p = elim p [ ]
some-Gives h n (some r) p = p

timeout_result-IsRunOf : (h : ChainedHook) → times_out h ≡ true → IsRunOf h (timeout_result h)
unfolding times_out timeout_result simulated_success
timeout_result-IsRunOf h late = (refl, ground (arith, late))

attempt_result-IsRunOf :
    (elapsed : ℕ → ℕ) (h : ChainedHook) (attempt : ℕ) → IsRunOf h (attempt_result elapsed h attempt)
unfolding attempt_result
attempt_result-IsRunOf elapsed h attempt = (refl, refl)

one_attempt :
    (elapsed : ℕ → ℕ) (h : ChainedHook) (attempt : ℕ) (rest : Option HookResult)
    → IsSome h rest
    → let r = attempt_result elapsed h attempt in
      IsSome h (
        if times_out h
        then some (timeout_result h)
        else (if r.success || is_tolerant h.failure_behavior then some r else rest))
one_attempt elapsed h attempt rest p =
    if_ind (λ (o : Option HookResult). IsSome h o) (times_out h)
      (λ late. timeout_result-IsRunOf h late)
      (λ _.
        if_ind (λ (o : Option HookResult). IsSome h o)
          ((attempt_result elapsed h attempt).success || is_tolerant h.failure_behavior)
          {x = some (attempt_result elapsed h attempt)}
          (λ _. attempt_result-IsRunOf elapsed h attempt) (λ _. p))

attempt_loop-IsSome :
    (elapsed : ℕ → ℕ) (h : ChainedHook) (left attempt : ℕ) (last : HookResult)
    → IsRunOf h last
    → IsSome h (attempt_loop elapsed h left attempt (some last))
unfolding attempt_loop
attempt_loop-IsSome elapsed h zero attempt last p = p
attempt_loop-IsSome elapsed h (suc left) attempt last p =
    one_attempt elapsed h attempt _ (
      attempt_loop-IsSome elapsed h left (attempt + 1) _ (attempt_result-IsRunOf elapsed h attempt))

attempts-Gives :
    (elapsed : ℕ → ℕ) (h : ChainedHook) (left : ℕ)
    → Gives h left (attempt_loop elapsed h left 0 none)
unfolding attempt_loop
attempts-Gives elapsed h zero = tt
attempts-Gives elapsed h (suc left) = some-Gives h left _ (
    one_attempt elapsed h 0 _
      (attempt_loop-IsSome elapsed h left 1 _ (attempt_result-IsRunOf elapsed h 0)))

pub single_hook-Gives :
    (elapsed : ℕ → ℕ) (h : ChainedHook)
    → Gives h (attempts_of h.failure_behavior) (execute_single_hook_with_behavior elapsed h)
unfolding execute_single_hook_with_behavior
single_hook-Gives elapsed h = attempts-Gives elapsed h (attempts_of h.failure_behavior)

Gives-Always :
    (h : ChainedHook) (n : ℕ) (o : Option HookResult) → Gives h n o → Always (IsRunOf h) o
Gives-Always h n none p = tt
Gives-Always h zero (some r) p = elim p [ ]
Gives-Always h (suc n) (some r) p = p

pub single_hook-IsRunOf :
    (elapsed : ℕ → ℕ) (h : ChainedHook)
    → Always (IsRunOf h) (execute_single_hook_with_behavior elapsed h)
single_hook-IsRunOf elapsed h =
    Gives-Always h (attempts_of h.failure_behavior) _ (single_hook-Gives elapsed h)
