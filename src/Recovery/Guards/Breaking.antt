-- ===== src/Recovery/Guards/Breaking.antt =====
-- When the circuit breakers of src/recovery.rs open and close.
use snp.Prelude.{
  ℕ, ◌≡◌, ◌≤◌, ◌<◌, refl, not, ◌∙◌, none, some, String, string_eq, ◌==◌, ==_refl, subst, ltb,
  if_ind, List, [], ◌∷◌, length, Bool, Bool-cases, Option-cases, inl, inr, arith,
}
use snp.Prelude.Map
use snp.Recovery.Guards.{
  RecoveryConfig, CircuitState, closed, open_circuit, half_open, CircuitBreakerState, Breakers,
  breaker_or, since, ask, fail, is_circuit_open, note_success, note_failure,
}

-- A closed breaker has seen fewer failures than the threshold since the last success; one that
-- is open, or half open, at least as many.
abbrev pub IsSound : RecoveryConfig → CircuitBreakerState → Type 0
IsSound config b = elim b.state [
  | closed ↦ b.failures < config.circuit_breaker_threshold
  | _ ↦ config.circuit_breaker_threshold ≤ b.failures
]

abbrev pub AllSound : RecoveryConfig → Breakers → Type 0
AllSound config breakers =
    (id : String) (b : CircuitBreakerState) → Map.get id breakers ≡ some b → IsSound config b

AllSound-insert :
    (config : RecoveryConfig) (id : String) (b : CircuitBreakerState) (breakers : Breakers)
    → AllSound config breakers
    → IsSound config b
    → AllSound config (Map.insert id b breakers)
AllSound-insert config id b breakers h sound j c e = elim (Bool-cases (id == j)) [
  | inl same ↦
      subst (IsSound config) {x = b} {y = c} (ground (arith, Map.get-insert id j b breakers)) sound
  | inr other ↦ h j c (ground (arith, Map.get-insert id j b breakers))
]

module _ (config : RecoveryConfig) (positive : 0 < config.circuit_breaker_threshold) (now : ℕ)
    (id : String) (breakers : Breakers) (h : AllSound config breakers) where
  success-AllSound : AllSound config (note_success id breakers)
  unfolding note_success
  success-AllSound = elim (Option-cases (Map.get id breakers)) [
    | inl none_yet ↦ rw (none_yet, note_success) h
    | inr (b, e) ↦
        rw (e, note_success)
          (AllSound-insert config id (record b { failures = 0; state = closed }) breakers h
            positive)
  ]

  failure-IsSound :
      (b : CircuitBreakerState) → IsSound config b → IsSound config (fail config now b)
  failure-IsSound b sound = ground arith

  failure-AllSound : AllSound config (note_failure config now id breakers)
  unfolding note_failure
  failure-AllSound = elim (Option-cases (Map.get id breakers)) [
    | inl none_yet ↦
        rw (none_yet, note_failure)
          (AllSound-insert config id _ breakers h (failure-IsSound (breaker_or now none) positive))
    | inr (b, e) ↦
        rw (e, note_failure) (AllSound-insert config id _ breakers h (failure-IsSound b (h id b e)))
  ]

  ask-AllSound :
      (b : CircuitBreakerState) (state : CircuitState)
      → Map.get id breakers ≡ some b
      → b.state ≡ state
      → AllSound config (ask config now id breakers b state).0
  unfolding ask
  ask-AllSound b closed e s = h
  ask-AllSound b half_open e s = h
  ask-AllSound b open_circuit e s =
      if_ind (λ (p : Breakers × Bool). AllSound config p.0)
        (ltb config.circuit_breaker_timeout (since now b.last_failure))
        (λ _.
          AllSound-insert config id (record b { state = half_open }) breakers h
            (ground (arith, h id b e)))
        (λ _. h)

  question-AllSound : AllSound config (is_circuit_open config now id breakers).0
  unfolding is_circuit_open
  question-AllSound = elim (Option-cases (Map.get id breakers)) [
    | inl none_yet ↦ rw (none_yet, is_circuit_open) h
    | inr (b, e) ↦ rw (e, is_circuit_open) (ask-AllSound b b.state e refl)
  ]

-- Successes, failures and the question itself keep this of every breaker: a closed one has seen
-- fewer failures than the threshold since its last success, and another at least as many.
pub breakers-AllSound :
    (config : RecoveryConfig) (now : ℕ) (id : String) (breakers : Breakers)
    → 0 < config.circuit_breaker_threshold
    → AllSound config breakers
    → AllSound config (note_success id breakers)
      × AllSound config (note_failure config now id breakers)
      × AllSound config (is_circuit_open config now id breakers).0
breakers-AllSound config now id breakers positive h = (
  success-AllSound config positive now id breakers h,
  failure-AllSound config positive now id breakers h,
  question-AllSound config positive now id breakers h,
)

module _ (config : RecoveryConfig) (id : String) where
  -- Failures of an operation in a row, the last of them first.
  unfoldable pub failures_at : List ℕ → Breakers → Breakers
  failures_at [] breakers = breakers
  failures_at (t ∷ ts) breakers = note_failure config t id (failures_at ts breakers)

  get-note_failure :
      (t : ℕ) (breakers : Breakers)
      → Map.get id (note_failure config t id breakers)
        ≡ some (fail config t (breaker_or t (Map.get id breakers)))
  unfolding note_failure
  get-note_failure t breakers = ground (
    arith,
    Map.get-insert id id (fail config t (breaker_or t (Map.get id breakers))) breakers,
    ==_refl id,
  )

  failures_at-get :
      (t : ℕ) (ts : List ℕ) (breakers : Breakers)
      → Map.get id breakers ≡ none
      → (b : CircuitBreakerState) × (Map.get id (failures_at (t ∷ ts) breakers) ≡ some b)
        × (b.failures ≡ length (t ∷ ts))
        × (b.last_failure ≡ t)
        × (config.circuit_breaker_threshold ≤ length (t ∷ ts) → b.state ≡ open_circuit)
  unfolding failures_at
  failures_at-get t [] breakers fresh = (
    fail config t (breaker_or t none),
    get-note_failure t breakers ∙ rw fresh,
    refl,
    refl,
    λ enough. ground arith,
  )
  failures_at-get t (u ∷ ts) breakers fresh =
      let (b, e, n, last, opens) = failures_at-get u ts breakers fresh in
      (
        fail config t b,
        get-note_failure t (failures_at (u ∷ ts) breakers) ∙ rw e,
        omega (arith, n),
        refl,
        λ enough. ground (arith, n),
      )

  -- When an operation that had no breaker before has failed at least as often in a row as the
  -- threshold, its circuit is open until the timeout after the last failure has passed, and then
  -- lets a call through.
  pub is_circuit_open-failures_at :
      (now t : ℕ) (ts : List ℕ) (breakers : Breakers)
      → Map.get id breakers ≡ none
      → config.circuit_breaker_threshold ≤ length (t ∷ ts)
      → (is_circuit_open config now id (failures_at (t ∷ ts) breakers)).1
        ≡ not (ltb config.circuit_breaker_timeout (since now t))
  unfolding is_circuit_open
  is_circuit_open-failures_at now t ts breakers fresh enough =
      let (b, e, n, last, opens) = failures_at-get t ts breakers fresh in
      let opened = opens enough in ground (arith, e, last, opened)
