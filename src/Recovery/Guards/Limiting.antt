-- ===== src/Recovery/Guards/Limiting.antt =====
-- When the rate limiters of src/recovery.rs hold an operation back.
use snp.Prelude.{
  ℕ, ◌≡◌, refl, not, ◌&&◌, List, [], ◌∷◌, some, none, String, string_eq, ==_refl, length, ltb, leb,
  arith,
}
use snp.Prelude.Map
use snp.Recovery.Guards.{
  RecoveryConfig, RateLimiter, Limiters, limiter_or, since, is_rate_limited, note_attempt, again,
}

module _ (config : RecoveryConfig) (id : String) (limiters : Limiters) where
  -- Failed recoveries of an operation: the first at `first`, then those of the list, the last of
  -- them at its head.
  unfoldable pub attempts_at : ℕ → List ℕ → Limiters
  attempts_at first [] = note_attempt first id limiters
  attempts_at first (t ∷ ts) = note_attempt t id (attempts_at first ts)

  attempts_at-get :
      (first : ℕ) (ts : List ℕ)
      → Map.get id limiters ≡ none
      → (l : RateLimiter) × (Map.get id (attempts_at first ts) ≡ some l)
        × (l.attempt_count ≡ length (first ∷ ts))
        × (l.window_start ≡ first)
  unfolding attempts_at note_attempt
  attempts_at-get first [] fresh = (
    again first (limiter_or first none),
    rw fresh (
        ground
          (arith, ==_refl id, Map.get-insert id id (again first (limiter_or first none)) limiters)),
    refl,
    refl,
  )
  attempts_at-get first (t ∷ ts) fresh =
      let (l, e, n, start) = attempts_at-get first ts fresh in
      (
        again t l,
        rw e (ground (arith, ==_refl id, Map.get-insert id id (again t l) (attempts_at first ts))),
        omega (arith, n),
        start,
      )

  -- An operation that had no limiter before is held back exactly if it has failed at least
  -- `max_global_retries` times and its first failure ever is at most a minute old: the window
  -- never starts again.
  pub is_rate_limited-attempts_at :
      (now first : ℕ) (ts : List ℕ)
      → Map.get id limiters ≡ none
      → is_rate_limited config now id (attempts_at first ts) ≡ (
          not (ltb 60_000 (since now first)) && leb config.max_global_retries (length (first ∷ ts)))
  unfolding is_rate_limited
  is_rate_limited-attempts_at now first ts fresh =
      let (l, e, n, start) = attempts_at-get first ts fresh in ground (arith, e, n, start)
