-- ===== src/Recovery/Retry.antt =====
-- The loop of `execute_retry_strategy` in src/recovery.rs. The operation is a function of the
-- number of the call; its error is taken as `from_snp_error` classifies it.
pub mod Attempts
use snp.Prelude.{
  ℕ, zero, suc, ◌+◌, ◌*◌, ◌/◌, min, Bool, true, false, List, [], ◌∷◌, if◌then◌else◌, ltb, Result,
  ok, err,
}
use snp.Recovery.Errors.{RecoverableError, is_error_recoverable}

pub record Policy : Type 0 where
  pub max_attempts : ℕ
  pub initial_delay : ℕ
  pub max_delay : ℕ
  pub backoff_tenths : ℕ

pub record Run (T : Type 0) : Type 0 where
  pub outcome : Result RecoverableError T
  pub calls : ℕ
  pub sleeps : List ℕ

-- `current_delay * backoff_multiplier` in whole milliseconds, at most `max_delay`.
unfoldable pub next_delay : Policy → ℕ → ℕ
next_delay policy delay = min (delay * policy.backoff_tenths / 10) policy.max_delay

abbrev pub slept : {T : Type 0} → ℕ → ℕ → Run T → Run T
slept attempt delay r = record r { sleeps = if ltb 1 attempt then delay ∷ r.sleeps else r.sleeps }

-- What follows a call: it succeeded, it failed for good, or the loop goes `on`.
unfoldable pub conclude :
    {T : Type 0} → Result RecoverableError T → (RecoverableError → Run T) → Run T
conclude (ok t) on = record { outcome = ok t; calls = 1; sleeps = [] }
conclude (err e) on =
    if is_error_recoverable e
    then record (on e) { calls = suc (on e).calls }
    else record { outcome = err e; calls = 1; sleeps = [] }

module _ {T : Type 0} (policy : Policy) (operation : ℕ → Result RecoverableError T) where
  -- `left` calls are left, `attempt` is the number of the next, and `delay` the current delay.
  unfoldable pub retry_from : (left attempt delay : ℕ) → RecoverableError → Run T
  retry_from zero attempt delay last = record { outcome = err last; calls = 0; sleeps = [] }
  retry_from (suc left) attempt delay last = slept attempt delay (
      conclude (operation attempt) (λ e. retry_from left (attempt + 1) (next_delay policy delay) e))

  unfoldable pub execute_retry : RecoverableError → Run T
  execute_retry initial_error = retry_from policy.max_attempts 1 policy.initial_delay initial_error
