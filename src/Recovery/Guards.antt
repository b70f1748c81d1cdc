-- ===== src/Recovery/Guards.antt =====
-- The circuit breakers and rate limiters of `RecoveryEngine` (src/recovery.rs). A lock that is
-- poisoned is left out: the guards are then passed over.
pub mod Breaking
pub mod Limiting
use snp.Prelude.{
  ℕ, ◌+◌, ◌-◌, Bool, true, false, List, [], ◌∷◌, Option, none, some, String, string_eq,
  if◌then◌else◌, ltb, leb,
}
use snp.Prelude.Map

-- The fields of `RecoveryConfig` that the guards read.
pub record RecoveryConfig : Type 0 where
  pub max_global_retries : ℕ
  pub circuit_breaker_threshold : ℕ
  pub circuit_breaker_timeout : ℕ

pub data CircuitState : Type 0 where
  closed open_circuit half_open : CircuitState

pub record CircuitBreakerState : Type 0 where
  pub failures : ℕ
  pub last_failure : ℕ
  pub state : CircuitState

pub record RateLimiter : Type 0 where
  pub last_attempt : ℕ
  pub attempt_count : ℕ
  pub window_start : ℕ

abbrev pub Breakers : Type 0
Breakers = List (String × CircuitBreakerState)

abbrev pub Limiters : Type 0
Limiters = List (String × RateLimiter)

-- `duration_since(..).unwrap_or_default()` is the difference, or zero if the clock ran backwards.
abbrev pub since : ℕ → ℕ → ℕ
since now earlier = now - earlier

unfoldable pub is_rate_limited : RecoveryConfig → ℕ → String → Limiters → Bool
is_rate_limited config now id limiters = elim (Map.get id limiters) [
  | none ↦ false
  | some l ↦
      if ltb 60_000 (since now l.window_start)
      then false
      else leb config.max_global_retries l.attempt_count
]

-- The breakers after the question about the breaker `b`, by its state, and the answer.
unfoldable pub ask :
    RecoveryConfig → ℕ → String → Breakers → CircuitBreakerState → CircuitState → Breakers × Bool
ask config now id breakers b open_circuit =
    if ltb config.circuit_breaker_timeout (since now b.last_failure)
    then (Map.insert id (record b { state = half_open }) breakers, false)
    else (breakers, true)
ask config now id breakers b closed = (breakers, false)
ask config now id breakers b half_open = (breakers, false)

unfoldable pub is_circuit_open : RecoveryConfig → ℕ → String → Breakers → Breakers × Bool
unfolding ask
is_circuit_open config now id breakers = elim (Map.get id breakers) [
  | none ↦ (breakers, false)
  | some b ↦ ask config now id breakers b b.state
]

-- The breaker's part of `record_successful_recovery`.
unfoldable pub note_success : String → Breakers → Breakers
note_success id breakers = elim (Map.get id breakers) [
  | none ↦ breakers
  | some b ↦ Map.insert id (record b { failures = 0; state = closed }) breakers
]

abbrev pub breaker_or : ℕ → Option CircuitBreakerState → CircuitBreakerState
breaker_or now none = record { failures = 0; last_failure = now; state = closed }
breaker_or now (some b) = b

-- One more failure of an operation, at `now`.
abbrev pub fail : RecoveryConfig → ℕ → CircuitBreakerState → CircuitBreakerState
fail config now b = record {
  failures = b.failures + 1;
  last_failure = now;
  state = if leb config.circuit_breaker_threshold (b.failures + 1) then open_circuit else b.state;
}

-- The breaker's part of `record_failed_recovery`.
unfoldable pub note_failure : RecoveryConfig → ℕ → String → Breakers → Breakers
note_failure config now id breakers =
    Map.insert id (fail config now (breaker_or now (Map.get id breakers))) breakers

abbrev pub limiter_or : ℕ → Option RateLimiter → RateLimiter
limiter_or now none = record { last_attempt = now; attempt_count = 0; window_start = now }
limiter_or now (some l) = l

abbrev pub again : ℕ → RateLimiter → RateLimiter
again now l = record l { attempt_count = l.attempt_count + 1; last_attempt = now }

-- The limiter's part of `record_failed_recovery`.
unfoldable pub note_attempt : ℕ → String → Limiters → Limiters
note_attempt now id limiters =
    Map.insert id (again now (limiter_or now (Map.get id limiters))) limiters
