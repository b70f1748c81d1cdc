-- ===== src/Recovery/Tests.antt =====
-- A network timeout of one operation, handled by the engine of src/recovery.rs.
use snp.Prelude.{
  ℕ, ◌+◌, ◌≡◌, ◌≤◌, ◌<◌, refl, max, true, false, not, ◌&&◌, [], ◌∷◌, none, String, string_eq,
  nat_eq, ◌==◌, if◌then◌else◌, ltb, leb, Result, ok, err, arith,
}
use snp.Prelude.Map
use snp.Recovery.Errors.{
  RecoverableError, network_timeout, configuration_invalid, is_error_recoverable, retry,
}
use snp.Recovery.History
use snp.Recovery.Guards.{
  RecoveryConfig, Breakers, Limiters, since, is_rate_limited, is_circuit_open,
}
use snp.Recovery.Guards.Breaking.{failures_at, is_circuit_open-failures_at}
use snp.Recovery.Guards.Limiting.{attempts_at, is_rate_limited-attempts_at}
use snp.Recovery.Retry.{Policy, execute_retry, retry_from, conclude}
use snp.Recovery.Retry.Attempts.{AllLe, execute_retry_bounds, execute_retry-ok}
use snp.Recovery.Engine.{
  failed, new, default_strategies, determine_strategy, apply_global_policies, conclude_retry,
  execute_strategy, handle_error,
}
use snp.Recovery.Engine.Handling.{
  IsSound, handle_error-IsSound, handle_error-guarded, execute_strategy-overcounts,
}

abbrev config : RecoveryConfig
config = record {
  max_global_retries = 2;
  circuit_breaker_threshold = 2;
  circuit_breaker_timeout = 1_000;
}

abbrev policy : Policy
policy = record { max_attempts = 3; initial_delay = 100; max_delay = 150; backoff_tenths = 20 }

abbrev timeout : RecoverableError
timeout = record { error_type = network_timeout; message = "timeout" }

abbrev invalid : RecoverableError
invalid = record { error_type = configuration_invalid; message = "invalid" }

-- The first call times out, the others succeed.
abbrev second_time : ℕ → Result RecoverableError String
second_time n = if n == 1 then err timeout else ok "done"

abbrev never : ℕ → Result RecoverableError String
never n = err invalid

engine-IsSound : IsSound config (new config)
unfolding new Map.get History.new
engine-IsSound = record {
  configured = refl;
  breakers = λ id b e. absurd (ground arith);
  history = omega arith;
}

handle_error-IsSound_example :
    IsSound config (handle_error 5 "fetch" second_time timeout (new config)).0
handle_error-IsSound_example =
    handle_error-IsSound config (omega arith) 5 "fetch" second_time timeout (new config)
      engine-IsSound

fetch_called : 0 < (handle_error 5 "fetch" second_time timeout (new config)).2
unfolding handle_error determine_strategy apply_global_policies execute_strategy conclude_retry
    execute_retry retry_from conclude is_error_recoverable new default_strategies is_rate_limited
    is_circuit_open Map.get
fetch_called = omega arith

handle_error-guarded_example :
    (is_error_recoverable timeout ≡ true)
    × (is_rate_limited (new config).global_config 5 "fetch" (new config).rate_limiters ≡ false)
    × ((is_circuit_open (new config).global_config 5 "fetch" (new config).circuit_breakers).1
        ≡ false)
handle_error-guarded_example =
    handle_error-guarded 5 "fetch" second_time timeout (new config) fetch_called

invalid_final : is_error_recoverable invalid ≡ false
unfolding is_error_recoverable
invalid_final = refl

execute_strategy-overcounts_case :
    let r = execute_strategy 5 "fetch" never timeout (retry 3 100 150 20) (new config) in
    (r.2 ≡ 1)
    × (r.1 ≡ failed invalid)
    × (r.0.retry_statistics.total_recovery_attempts
        ≡ (new config).retry_statistics.total_recovery_attempts + 3)
execute_strategy-overcounts_case =
    execute_strategy-overcounts 5 "fetch" never timeout invalid 3 100 150 20 (new config)
      (omega arith) refl invalid_final

abbrev no_breakers : Breakers
no_breakers = []

unknown : Map.get "fetch" no_breakers ≡ none
unfolding Map.get
unknown = refl

abbrev no_limiters : Limiters
no_limiters = []

unlimited : Map.get "fetch" no_limiters ≡ none
unfolding Map.get
unlimited = refl

is_circuit_open-failures_at_example :
    (is_circuit_open config 900 "fetch" (failures_at config "fetch" (20 ∷ 10 ∷ []) no_breakers)).1
    ≡ not (ltb config.circuit_breaker_timeout (since 900 20))
is_circuit_open-failures_at_example =
    is_circuit_open-failures_at config "fetch" 900 20 (10 ∷ []) no_breakers unknown (omega arith)

is_rate_limited-attempts_at_example :
    is_rate_limited config 70_000 "fetch" (attempts_at config "fetch" no_limiters 1 (69_000 ∷ []))
    ≡ (not (ltb 60_000 (since 70_000 1)) && leb config.max_global_retries 2)
is_rate_limited-attempts_at_example =
    is_rate_limited-attempts_at config "fetch" no_limiters 70_000 1 (69_000 ∷ []) unlimited

execute_retry_bounds_example :
    ((execute_retry policy second_time timeout).calls ≤ 3)
    × AllLe (max 100 150) (execute_retry policy second_time timeout).sleeps
execute_retry_bounds_example = execute_retry_bounds policy second_time timeout

timeout_soft : is_error_recoverable timeout ≡ true
unfolding is_error_recoverable
timeout_soft = refl

execute_retry-ok_case :
    ((execute_retry policy second_time timeout).outcome ≡ ok "done")
    × ((execute_retry policy second_time timeout).calls ≡ 2)
execute_retry-ok_case =
    execute_retry-ok policy second_time timeout 1 "done" (omega arith)
      (λ j h. let e : 1 + j ≡ 1 = omega arith in (timeout, rw e refl, timeout_soft)) refl
