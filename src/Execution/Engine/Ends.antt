-- ===== src/Execution/Engine/Ends.antt =====
-- What a call of `get_or_create_environment` of src/execution.rs may do to the cache.
use snp.Prelude.{
  ◌≡◌, refl, sym, subst, ap, arith, List, Option, none, some, String, string_eq, ◌⊎◌, inl, inr,
  Option-cases, Result, ok, err,
}
use snp.Prelude.Stateful.{Stateful, and_then, ◌>>=◌}
use snp.Execution.Engine.{Host, Engine, EnvironmentConfig, SnpError, Plugin, outside, moved}
use snp.Execution.Engine.Environments.{
  install, require_plugin, cached_environment, cache_environment, get_or_create_environment,
  create_environment,
}

-- The end of a step outside, whatever its result.
moved-cases :
    {S Env Code Failure Fault A B : Type 0} (engine : Engine S Env Code Failure)
    (p : S × Result (SnpError Fault) A)
    (f : A → Stateful (Engine S Env Code Failure) (SnpError Fault) B)
    (Q : Engine S Env Code Failure → Type 0) (u : Engine S Env Code Failure)
    (r : Result (SnpError Fault) B)
    → ((s : S) → Q (record engine { world = s }))
    → ((s : S) (a : A) → f a (record engine { world = s }) ≡ (u, r) → Q u)
    → and_then (moved engine p) f ≡ (u, r)
    → Q u
moved-cases engine (s, ok a) f Q u r failed went h = went s a h
moved-cases {S} {Env} {Code} {Failure} engine (s, err x) f Q u r failed went h =
    let e : record engine { world = s } ≡ u = cc in
    subst (λ (x : Engine S Env Code Failure). Q x) e (failed s)

module _ {S Env Dependency Code Failure Fault : Type 0}
    (host : Host S Env Dependency Code Failure Fault) where
  -- A call leaves the environments as they are, or adds one.
  abbrev pub Ends :
      String → List String → Engine S Env Code Failure → Engine S Env Code Failure → Type 0
  Ends language dependencies engine u =
      (u.environment_cache ≡ engine.environment_cache)
      ⊎ ((s : S) × (e : Env) × (u
            ≡ cache_environment host language dependencies e (record engine { world = s })))

  created-Ends :
      (language : String) (dependencies : List String) (env_config : EnvironmentConfig)
      (plugin : Option (Plugin S Env Dependency Code Failure Fault))
      (engine u : Engine S Env Code Failure) (r : Result (SnpError Fault) Env)
      → and_then
          (engine, require_plugin host language plugin)
          (λ found. do
            e ← outside (found.setup_environment env_config)
            _ ← outside (install host found dependencies e)
            λ later. (cache_environment host language dependencies e later, ok e))
        ≡ (u, r)
      → Ends language dependencies engine u
  created-Ends language dependencies env_config none engine u r h =
      let e : engine ≡ u = cc in
      inl (ap (λ (x : Engine S Env Code Failure). x.environment_cache) (sym e))
  created-Ends language dependencies env_config (some plugin) engine u r h =
      moved-cases engine (plugin.setup_environment env_config engine.world) _
        (Ends language dependencies engine) u r (λ s. inl refl)
        (λ s e h'.
          moved-cases (record engine { world = s }) (install host plugin dependencies e s) _
            (Ends language dependencies engine) u r (λ s'. inl refl)
            (λ s' _ h''.
              let same : u
                  ≡ cache_environment host language dependencies e (record engine { world = s' }) =
                cc in
              inr (s', e, same))
            h')
        h

  create_environment-Ends :
      (language : String) (dependencies : List String) (env_config : EnvironmentConfig)
      (engine u : Engine S Env Code Failure) (r : Result (SnpError Fault) Env)
      → create_environment host language env_config dependencies engine ≡ (u, r)
      → Ends language dependencies engine u
  unfolding create_environment
  create_environment-Ends language dependencies env_config engine u r h =
      created-Ends language dependencies env_config (host.get_plugin language) engine u r h

  pub get_or_create-Ends :
      (language : String) (dependencies : List String) (env_config : EnvironmentConfig)
      (engine u : Engine S Env Code Failure) (r : Result (SnpError Fault) Env)
      → get_or_create_environment host language env_config dependencies engine ≡ (u, r)
      → Ends language dependencies engine u
  unfolding get_or_create_environment
  get_or_create-Ends language dependencies env_config engine u r h =
      elim (Option-cases (cached_environment host language dependencies engine)) [
        | inl new ↦
            let made : create_environment host language env_config dependencies engine ≡ (u, r) =
              ground arith in
            create_environment-Ends language dependencies env_config engine u r made
        | inr (x, found) ↦
            let e : engine ≡ u = ground arith in
            inl (ap (λ (y : Engine S Env Code Failure). y.environment_cache) (sym e))
      ]
