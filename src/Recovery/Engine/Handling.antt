-- ===== src/Recovery/Engine/Handling.antt =====
-- What `handle_error` of src/recovery.rs does to the engine and to the operation.
use snp.Prelude.{
  ℕ, ◌+◌, ◌≡◌, ◌<◌, refl, Bool, true, false, not, String, Result, ok, err, Option-cases, inl, inr,
  if_ind, arith,
}
use snp.Recovery.Errors.{
  RecoverableError, is_error_recoverable, RecoveryStrategy, retry, skip, abort, unimplemented,
}
use snp.Recovery.History
use snp.Recovery.Guards.{RecoveryConfig, is_rate_limited, is_circuit_open}
use snp.Recovery.Guards.Breaking.{AllSound, breakers-AllSound}
use snp.Recovery.Retry.{Policy}
use snp.Recovery.Retry.Attempts.{execute_retry_final}
use snp.Recovery.Engine.{
  RecoveryEngine, RecoveryResult, failed, record_successful_recovery, record_failed_recovery,
  apply_global_policies, default_strategy, determine_strategy, conclude_retry, execute_strategy,
  handle_error,
}

-- The breakers agree with their counts, and the history keeps to its limit.
pub record IsSound (config : RecoveryConfig) (engine : RecoveryEngine) : Type 0 where
  pub configured : engine.global_config ≡ config
  pub breakers : AllSound config engine.circuit_breakers
  pub history : History.IsBounded engine.recovery_history

module _ (config : RecoveryConfig) (positive : 0 < config.circuit_breaker_threshold) (now : ℕ)
    (id : String) where
  policies-IsSound :
      (strategy : RecoveryStrategy) (engine : RecoveryEngine)
      → IsSound config engine
      → IsSound config (apply_global_policies now id strategy engine).0
  unfolding apply_global_policies
  policies-IsSound strategy engine s =
      if_ind (λ (p : RecoveryEngine × RecoveryStrategy). IsSound config p.0)
        (is_rate_limited engine.global_config now id engine.rate_limiters) (λ _. s)
        (λ _. record {
          configured = s.configured;
          breakers =
              rw s.configured
                (breakers-AllSound config now id engine.circuit_breakers positive s.breakers).2;
          history = s.history;
        })

  determine-IsSound :
      (error : RecoverableError) (engine : RecoveryEngine)
      → IsSound config engine
      → IsSound config (determine_strategy now id error engine).0
  unfolding determine_strategy
  determine-IsSound error engine s = elim (Option-cases (engine.strategies error.error_type)) [
    | inl absent ↦
        rw (absent, determine_strategy)
          (policies-IsSound (default_strategy error.error_type) engine s)
    | inr (strategy, found) ↦ rw (found, determine_strategy) (policies-IsSound strategy engine s)
  ]

  recorded-IsSound :
      (attempts : ℕ) (engine : RecoveryEngine)
      → IsSound config engine
      → IsSound config (record_successful_recovery now id attempts engine)
        × IsSound config (record_failed_recovery now id attempts engine)
  unfolding record_successful_recovery record_failed_recovery
  recorded-IsSound attempts engine s =
      let kept = breakers-AllSound config now id engine.circuit_breakers positive s.breakers in
      let bounded = λ (b : Bool) (m : String).
        History.add_entry-IsBounded now id b m engine.recovery_history s.history in
      (
        record {
          configured = s.configured;
          breakers = kept.0;
          history = bounded true "successful_recovery";
        },
        record {
          configured = s.configured;
          breakers = rw s.configured kept.1;
          history = bounded false "failed_recovery";
        },
      )

  conclude-IsSound :
      {T : Type 0} (max_attempts calls : ℕ) (outcome : Result RecoverableError T)
      (engine : RecoveryEngine)
      → IsSound config engine
      → IsSound config (conclude_retry now id max_attempts calls outcome engine).0
  unfolding conclude_retry
  conclude-IsSound max_attempts calls (ok t) engine s = (recorded-IsSound calls engine s).0
  conclude-IsSound max_attempts calls (err e) engine s = (recorded-IsSound max_attempts engine s).1

  module _ {T : Type 0} (operation : ℕ → Result RecoverableError T) where
    execute-IsSound :
        (error : RecoverableError) (strategy : RecoveryStrategy) (engine : RecoveryEngine)
        → IsSound config engine
        → IsSound config (execute_strategy now id operation error strategy engine).0
    unfolding execute_strategy
    execute-IsSound error (retry n d m t) engine s = conclude-IsSound n _ _ engine s
    execute-IsSound error (skip b) engine s = s
    execute-IsSound error (abort b) engine s = s
    execute-IsSound error unimplemented engine s = s

    -- With a positive threshold, and whatever the operation does, the handling of an error keeps
    -- the breakers in agreement with their failure counts, the history within its limit, and the
    -- configuration as it is.
    pub handle_error-IsSound :
        (error : RecoverableError) (engine : RecoveryEngine)
        → IsSound config engine
        → IsSound config (handle_error now id operation error engine).0
    unfolding handle_error
    handle_error-IsSound error engine s =
        if_ind (λ (r : RecoveryEngine × RecoveryResult T × ℕ). IsSound config r.0)
          (not (is_error_recoverable error)) (λ _. s)
          (λ _.
            let (engine', strategy) = determine_strategy now id error engine in
            execute-IsSound error strategy engine' (determine-IsSound error engine s))

module _ {T : Type 0} (now : ℕ) (id : String) (operation : ℕ → Result RecoverableError T) where
  -- The operation is called only for an error that can be recovered from, of an operation that
  -- is not rate limited and whose circuit is not open.
  pub handle_error-guarded :
      (error : RecoverableError) (engine : RecoveryEngine)
      → 0 < (handle_error now id operation error engine).2
      → (is_error_recoverable error ≡ true)
        × (is_rate_limited engine.global_config now id engine.rate_limiters ≡ false)
        × ((is_circuit_open engine.global_config now id engine.circuit_breakers).1 ≡ false)
  unfolding handle_error determine_strategy apply_global_policies execute_strategy
  handle_error-guarded error engine called = ground arith

  -- Where the first call fails for good, the loop stops after it, but the statistics count all
  -- `max_attempts` attempts.
  pub execute_strategy-overcounts :
      (error e : RecoverableError) (max_attempts initial_delay max_delay tenths : ℕ)
      (engine : RecoveryEngine)
      → 0 < max_attempts
      → operation 1 ≡ err e
      → is_error_recoverable e ≡ false
      → let r =
          execute_strategy now id operation error
            (retry max_attempts initial_delay max_delay tenths)
            engine in
        (r.2 ≡ 1)
        × (r.1 ≡ failed e)
        × (r.0.retry_statistics.total_recovery_attempts
            ≡ engine.retry_statistics.total_recovery_attempts + max_attempts)
  unfolding execute_strategy conclude_retry record_failed_recovery
  execute_strategy-overcounts error e max_attempts initial_delay max_delay tenths engine h bad
        final =
      let policy : Policy = record {
        max_attempts = max_attempts;
        initial_delay = initial_delay;
        max_delay = max_delay;
        backoff_tenths = tenths;
      } in
      let (outcome, calls) = execute_retry_final policy operation error e h bad final in
      rw (outcome, calls) (refl, refl, refl)
