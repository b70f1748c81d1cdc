-- ===== src/Recovery/Engine.antt =====
-- `RecoveryEngine` of src/recovery.rs: the choice of a strategy and its execution. Each call of
-- the clock reads the one time `now`; messages to the log and the user change nothing here.
pub mod Handling
use snp.Prelude.{
  ℕ, ◌+◌, Bool, true, false, not, List, [], ◌∷◌, Option, none, some, String, if◌then◌else◌, Result,
  ok, err, ◌==◌, PartialEq,
}
use snp.Prelude.Map
use snp.Recovery.Errors.{
  ErrorType, network_timeout, file_locked, process_timeout, unrecoverable_error, RecoverableError,
  is_error_recoverable, RecoveryStrategy, retry, skip, abort, unimplemented,
}
use snp.Recovery.History
use snp.Recovery.History.{RecoveryHistory}
use snp.Recovery.Guards.{
  RecoveryConfig, Breakers, Limiters, is_rate_limited, is_circuit_open, note_success, note_failure,
  note_attempt,
}
use snp.Recovery.Retry.{Policy, execute_retry}

-- The counters of `RecoveryStatistics` that the engine writes; the rate is their quotient.
pub record RecoveryStatistics : Type 0 where
  pub total_recovery_attempts : ℕ
  pub successful_recoveries : ℕ
  pub failed_recoveries : ℕ

pub record RecoveryEngine : Type 0 where
  pub strategies : ErrorType → Option RecoveryStrategy
  pub global_config : RecoveryConfig
  pub retry_statistics : RecoveryStatistics
  pub recovery_history : RecoveryHistory
  pub circuit_breakers : Breakers
  pub rate_limiters : Limiters

pub data RecoveryResult (T : Type 0) : Type 0 where
  recovered : T → RecoveryResult T
  failed : RecoverableError → RecoveryResult T
  skipped : RecoveryResult T
  not_recoverable aborted not_implemented : RecoverableError → RecoveryResult T

-- The table that `RecoveryEngine::new` fills.
unfoldable pub default_strategies : ErrorType → Option RecoveryStrategy
default_strategies network_timeout = some (retry 3 100 10_000 20)
default_strategies file_locked = some (retry 5 50 2_000 15)
default_strategies process_timeout = some (retry 2 500 5_000 20)
default_strategies e = none

unfoldable pub new : RecoveryConfig → RecoveryEngine
new config = record {
  strategies = default_strategies;
  global_config = config;
  retry_statistics = record {
    total_recovery_attempts = 0;
    successful_recoveries = 0;
    failed_recoveries = 0;
  };
  recovery_history = History.new 1000;
  circuit_breakers = [];
  rate_limiters = [];
}

unfoldable pub record_successful_recovery : ℕ → String → ℕ → RecoveryEngine → RecoveryEngine
record_successful_recovery now id attempts engine =
    let stats = engine.retry_statistics in
    record engine {
      retry_statistics = record stats {
        total_recovery_attempts = stats.total_recovery_attempts + attempts;
        successful_recoveries = stats.successful_recoveries + 1;
      };
      circuit_breakers = note_success id engine.circuit_breakers;
      recovery_history =
          History.add_entry now id true "successful_recovery" engine.recovery_history;
    }

unfoldable pub record_failed_recovery : ℕ → String → ℕ → RecoveryEngine → RecoveryEngine
record_failed_recovery now id attempts engine =
    let stats = engine.retry_statistics in
    record engine {
      retry_statistics = record stats {
        total_recovery_attempts = stats.total_recovery_attempts + attempts;
        failed_recoveries = stats.failed_recoveries + 1;
      };
      circuit_breakers = note_failure engine.global_config now id engine.circuit_breakers;
      recovery_history = History.add_entry now id false "failed_recovery" engine.recovery_history;
      rate_limiters = note_attempt now id engine.rate_limiters;
    }

-- The strategy for an error type that the table lacks.
unfoldable pub default_strategy : ErrorType → RecoveryStrategy
default_strategy network_timeout = retry 3 100 5_000 20
default_strategy file_locked = retry 3 100 5_000 20
default_strategy process_timeout = retry 3 100 5_000 20
default_strategy unrecoverable_error = abort false
default_strategy e = skip true

-- The engine after the questions to the guards, and the strategy that they let through.
unfoldable pub apply_global_policies :
    ℕ → String → RecoveryStrategy → RecoveryEngine → RecoveryEngine × RecoveryStrategy
apply_global_policies now id strategy engine =
    if is_rate_limited engine.global_config now id engine.rate_limiters
    then (engine, skip true)
    else (let (breakers, is_open) =
          is_circuit_open engine.global_config now id engine.circuit_breakers in
        (record engine { circuit_breakers = breakers }, if is_open then abort false else strategy))

unfoldable pub determine_strategy :
    ℕ → String → RecoverableError → RecoveryEngine → RecoveryEngine × RecoveryStrategy
unfolding apply_global_policies
determine_strategy now id error engine = elim (engine.strategies error.error_type) [
  | some strategy ↦ apply_global_policies now id strategy engine
  | none ↦ apply_global_policies now id (default_strategy error.error_type) engine
]

-- The end of `execute_retry_strategy` after so many calls: a failure is recorded with
-- `max_attempts` attempts.
unfoldable pub conclude_retry :
    {T : Type 0}
    → ℕ
    → String
    → (max_attempts calls : ℕ) → Result RecoverableError T
    → RecoveryEngine
    → RecoveryEngine × RecoveryResult T × ℕ
conclude_retry now id max_attempts calls (ok t) engine =
    (record_successful_recovery now id calls engine, recovered t, calls)
conclude_retry now id max_attempts calls (err e) engine =
    (record_failed_recovery now id max_attempts engine, failed e, calls)

module _ {T : Type 0} (now : ℕ) (id : String) (operation : ℕ → Result RecoverableError T) where
  -- The engine after the strategy, the result, and how often the operation was called.
  unfoldable pub execute_strategy :
      RecoverableError → RecoveryStrategy → RecoveryEngine → RecoveryEngine × RecoveryResult T × ℕ
  execute_strategy error (retry max_attempts initial_delay max_delay tenths) engine =
      let policy : Policy = record {
        max_attempts = max_attempts;
        initial_delay = initial_delay;
        max_delay = max_delay;
        backoff_tenths = tenths;
      } in
      let run = execute_retry policy operation error in
      conclude_retry now id max_attempts run.calls run.outcome engine
  execute_strategy error (skip notify) engine = (engine, skipped, 0)
  execute_strategy error (abort cleanup) engine = (engine, aborted error, 0)
  execute_strategy error unimplemented engine = (engine, not_implemented error, 0)

  unfoldable pub handle_error :
      RecoverableError → RecoveryEngine → RecoveryEngine × RecoveryResult T × ℕ
  handle_error error engine =
      if not (is_error_recoverable error)
      then (engine, not_recoverable error, 0)
      else (let (engine', strategy) = determine_strategy now id error engine in
          execute_strategy error strategy engine')
