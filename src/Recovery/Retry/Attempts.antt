-- ===== src/Recovery/Retry/Attempts.antt =====
-- How often the retry loop of src/recovery.rs calls the operation, how long it waits, and when it
-- succeeds.
use snp.Prelude.{
  ℕ, zero, suc, ◌+◌, ◌≡◌, ◌≤◌, ◌<◌, refl, max, true, false, List, [], ◌∷◌, ltb, Result, ok, err,
  if_ind, arith,
}
use native.Mathlib.Nat.{add-zero}
use snp.Recovery.Errors.{RecoverableError, is_error_recoverable}
use snp.Recovery.Retry.{Policy, Run, next_delay, retry_from, execute_retry, conclude, slept}

abbrev pub AllLe : ℕ → List ℕ → Type 0
AllLe n [] = Unit
AllLe n (x ∷ xs) = (x ≤ n) × AllLe n xs

-- At most so many calls, and no sleep longer than `top`.
record Within {T : Type 0} (left top : ℕ) (r : Run T) : Type 0 where
  pub calls : r.calls ≤ left
  pub sleeps : AllLe top r.sleeps

conclude-Within :
    {T : Type 0} (left top : ℕ) (r : Result RecoverableError T) (on : RecoverableError → Run T)
    → ((e : RecoverableError) → Within left top (on e))
    → Within (suc left) top (conclude r on)
unfolding conclude
conclude-Within left top (ok t) on h = record { calls = omega arith; sleeps = tt }
conclude-Within left top (err e) on h =
    let w = h e in
    if_ind (Within (suc left) top) (is_error_recoverable e)
      (λ _. record { calls = omega (arith, w.calls); sleeps = w.sleeps })
      (λ _. record { calls = omega arith; sleeps = tt })

slept-Within :
    {T : Type 0} (left top attempt delay : ℕ) (r : Run T)
    → delay ≤ top
    → Within left top r
    → Within left top (slept attempt delay r)
slept-Within left top attempt delay r d w = record {
  calls = w.calls;
  sleeps = if_ind (AllLe top) (ltb 1 attempt) (λ _. (d, w.sleeps)) (λ _. w.sleeps);
}

module _ {T : Type 0} (policy : Policy) (operation : ℕ → Result RecoverableError T) where
  retry_from-Within :
      (left attempt delay : ℕ) (last : RecoverableError) (top : ℕ)
      → policy.max_delay ≤ top
      → delay ≤ top
      → Within left top (retry_from policy operation left attempt delay last)
  unfolding retry_from next_delay
  retry_from-Within zero attempt delay last top h d = record { calls = omega arith; sleeps = tt }
  retry_from-Within (suc left) attempt delay last top h d =
      slept-Within (suc left) top attempt delay _ d (
        conclude-Within left top (operation attempt) _ (λ e.
          retry_from-Within left (attempt + 1) (next_delay policy delay) e top h (omega arith)))

  -- The loop calls the operation at most `max_attempts` times, and never sleeps longer than the
  -- longer of the initial and the maximal delay.
  pub execute_retry_bounds :
      (error : RecoverableError)
      → ((execute_retry policy operation error).calls ≤ policy.max_attempts)
        × AllLe
            (max policy.initial_delay policy.max_delay)
            (execute_retry policy operation error).sleeps
  unfolding execute_retry
  execute_retry_bounds error =
      let w =
        retry_from-Within policy.max_attempts 1 policy.initial_delay error
          (max policy.initial_delay policy.max_delay) (omega arith) (omega arith) in
      (w.calls, w.sleeps)

  -- The call that fails but lets the loop go on.
  abbrev pub FailsSoftly : ℕ → Type 0
  FailsSoftly n = (e : RecoverableError) × (operation n ≡ err e) × (is_error_recoverable e ≡ true)

  retry_from-ok :
      (left attempt delay k : ℕ) (last : RecoverableError) (t : T)
      → k < left
      → ((j : ℕ) → j < k → FailsSoftly (attempt + j))
      → operation (attempt + k) ≡ ok t
      → ((retry_from policy operation left attempt delay last).outcome ≡ ok t)
        × ((retry_from policy operation left attempt delay last).calls ≡ suc k)
  unfolding retry_from conclude
  retry_from-ok zero attempt delay k last t h soft good = absurd (omega arith)
  retry_from-ok (suc left) attempt delay zero last t h soft good =
      let e : operation attempt ≡ ok t = rw add-zero at good in rw e (refl, refl)
  retry_from-ok (suc left) attempt delay (suc k) last t h soft good =
      let (x, e₀, r) = soft 0 (omega arith) in
      let shift : (j : ℕ) → attempt + 1 + j ≡ attempt + suc j = λ j. omega arith in
      let e : operation attempt ≡ err x = rw add-zero at e₀ in
      let (won, n) =
        retry_from-ok left (attempt + 1) (next_delay policy delay) k x t (omega arith)
          (λ j lt. rw (shift j) (soft (suc j) (omega arith))) (rw (shift k) good) in
      rw (e, r) (won, omega (arith, n))

  -- If an operation succeeds after failures that allow another try, within `max_attempts` calls,
  -- then the loop returns the result of the first success, and makes no call after it.
  pub execute_retry-ok :
      (error : RecoverableError) (k : ℕ) (t : T)
      → k < policy.max_attempts
      → ((j : ℕ) → j < k → FailsSoftly (1 + j))
      → operation (1 + k) ≡ ok t
      → ((execute_retry policy operation error).outcome ≡ ok t)
        × ((execute_retry policy operation error).calls ≡ suc k)
  unfolding execute_retry
  execute_retry-ok error k t = retry_from-ok policy.max_attempts 1 policy.initial_delay k error t

  retry_from_final :
      (left attempt delay : ℕ) (last e : RecoverableError)
      → 0 < left
      → operation attempt ≡ err e
      → is_error_recoverable e ≡ false
      → ((retry_from policy operation left attempt delay last).outcome ≡ err e)
        × ((retry_from policy operation left attempt delay last).calls ≡ 1)
  unfolding retry_from conclude
  retry_from_final zero attempt delay last e h bad final = absurd (omega arith)
  retry_from_final (suc left) attempt delay last e h bad final = rw (bad, final) (refl, refl)

  -- An error that allows no other try ends the loop after its call.
  pub execute_retry_final :
      (error e : RecoverableError)
      → 0 < policy.max_attempts
      → operation 1 ≡ err e
      → is_error_recoverable e ≡ false
      → ((execute_retry policy operation error).outcome ≡ err e)
        × ((execute_retry policy operation error).calls ≡ 1)
  unfolding execute_retry
  execute_retry_final error e = retry_from_final policy.max_attempts 1 policy.initial_delay error e
