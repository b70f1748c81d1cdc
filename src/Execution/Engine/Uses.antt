-- ===== src/Execution/Engine/Uses.antt =====
-- How long src/execution.rs gives the environment of a language and its dependencies again, while
-- other environments are asked for.
use snp.Prelude.{
  ℕ, ◌+◌, ◌≡◌, ◌≤◌, refl, sym, subst, ap, ◌∙◌, arith, false, List, none, some, String, string_eq,
  ==_refl, ==_iff, ◌==◌, inl, inr, Bool-cases, Result, ok,
}
use snp.Prelude.Map
use snp.Execution.Engine.{Host, Engine, EnvironmentCacheEntry, EnvironmentConfig, SnpError}
use snp.Execution.Engine.Environments.{
  is_stale, cached_environment, cache_environment, get_or_create_environment, create_environment,
  generate_environment_cache_key,
}
use snp.Execution.Engine.Entries.{get-limit, Holds, insert-Holds, limit-Holds}
use snp.Execution.Engine.Reuse.{
  elapsed_of_le, create_environment-Created, is_current-within_ttl, cached_environment_found,
}
use snp.Execution.Engine.Ends.{get_or_create-Ends}

-- Two hours, the age at which the eviction may take an entry.
abbrev pub eviction_age : ℕ
eviction_age = 7200000

module _ {S Env Dependency Code Failure Fault : Type 0}
    (host : Host S Env Dependency Code Failure Fault) where
  module _ (language : String) (dependencies : List String) where
    abbrev own_key : String
    own_key = generate_environment_cache_key host language dependencies

    -- What an engine may do in the meantime: time passes, and environments are asked for, with any
    -- result. The clock does not go back, and another language or other dependencies have another
    -- key.
    pub data Uses (start : Engine S Env Code Failure) : Engine S Env Code Failure → Type 0 where
      nothing : Uses start start
      waited :
          {t : Engine S Env Code Failure}
          → Uses start t
          → (s : S) → host.now t.world ≤ host.now s
          → Uses start (record t { world = s })
      asked :
          {t u : Engine S Env Code Failure} (l : String) (ds : List String)
          (env_config : EnvironmentConfig) (r : Result (SnpError Fault) Env)
          → Uses start t
          → get_or_create_environment host l env_config ds t ≡ (u, r)
          → host.now t.world ≤ host.now u.world
          → (generate_environment_cache_key host l ds ≡ own_key
              → (l ≡ language) × (ds ≡ dependencies))
          → Uses start u

    abbrev entry_of : Env → ℕ → EnvironmentCacheEntry Env
    entry_of environment now = record {
      environment = environment;
      language = language;
      dependencies = dependencies;
      timestamp = now;
    }

    -- The environment of the creation at `born` is in the cache.
    record IsStored (environment : Env) (born : ℕ) (engine : Engine S Env Code Failure)
        : Type 0 where
      entries : Holds (λ k x. Unit {0}) engine.environment_cache
      found : Map.get own_key engine.environment_cache ≡ some (entry_of environment born)
      after : born ≤ host.now engine.world

    cached-IsStored :
        (l : String) (ds : List String) (e environment : Env) (born : ℕ)
        (engine : Engine S Env Code Failure)
        → Holds (λ k x. Unit {0}) engine.environment_cache
        → born ≤ host.now engine.world
        → host.now engine.world ≤ born + eviction_age
        → Map.get own_key (
            Map.insert
              (generate_environment_cache_key host l ds)
              (record {
                environment = e;
                language = l;
                dependencies = ds;
                timestamp = host.now engine.world;
              })
              engine.environment_cache)
          ≡ some (entry_of environment born)
        → IsStored environment born (cache_environment host l ds e engine)
    unfolding cache_environment
    cached-IsStored l ds e environment born engine entries after within there =
        let now = host.now engine.world in
        let new : EnvironmentCacheEntry Env = record {
          environment = e;
          language = l;
          dependencies = ds;
          timestamp = now;
        } in
        let added =
          insert-Holds (λ k x. Unit {0}) (generate_environment_cache_key host l ds) new
            engine.environment_cache entries tt in
        let fresh : is_stale now (entry_of environment born) ≡ false =
          ground (arith, elapsed_of_le born now 0 after) in
        record {
          entries = limit-Holds (is_stale now) (λ k x. Unit {0}) 50 _ added;
          found =
              get-limit (is_stale now) 50 own_key (entry_of environment born) _
                (added.is_map own_key) there fresh;
          after = after;
        }

    get-IsStored :
        (environment : Env) (born : ℕ) (engine : Engine S Env Code Failure)
        → IsStored environment born engine
        → host.now engine.world ≤ born + eviction_age
        → cached_environment host language dependencies engine ≡ some environment
    get-IsStored environment born engine h within =
        cached_environment_found host language dependencies engine (entry_of environment born)
          h.found
          (is_current-within_ttl host language dependencies (host.now engine.world)
            (entry_of environment born) refl refl h.after (omega (arith, h.after, within)))

    same_time :
        (l : String) (ds : List String) (e : Env) (t : Engine S Env Code Failure) (s : S)
        → host.now (cache_environment host l ds e (record t { world = s })).world ≡ host.now s
    unfolding cache_environment
    same_time l ds e t s = refl

    again :
        (environment : Env) (env_config : EnvironmentConfig) (engine : Engine S Env Code Failure)
        → cached_environment host language dependencies engine ≡ some environment
        → get_or_create_environment host language env_config dependencies engine
          ≡ (engine, ok environment)
    unfolding get_or_create_environment
    again environment env_config engine found = ground arith

    asked-IsStored :
        (l : String) (ds : List String) (env_config : EnvironmentConfig) (environment : Env)
        (born : ℕ) (t u : Engine S Env Code Failure) (r : Result (SnpError Fault) Env)
        → get_or_create_environment host l env_config ds t ≡ (u, r)
        → host.now t.world ≤ host.now u.world
        → host.now u.world ≤ born + eviction_age
        → (generate_environment_cache_key host l ds ≡ own_key
            → (l ≡ language) × (ds ≡ dependencies))
        → IsStored environment born t
        → IsStored environment born u
    asked-IsStored l ds env_config environment born t u r call forward within own h =
        elim (Bool-cases (generate_environment_cache_key host l ds == own_key)) [
          | inl same_key ↦
              let (same_language, same_dependencies) = own ((==_iff _ own_key).0 same_key) in
              let hit : get_or_create_environment host l env_config ds t ≡ (t, ok environment) =
                rw (same_language, same_dependencies)
                  (again environment env_config t
                    (get-IsStored environment born t h (omega (arith, forward, within)))) in
              let same : t ≡ u = cc in
              subst (λ (x : Engine S Env Code Failure). IsStored environment born x) same h
          | inr other_key ↦ elim (get_or_create-Ends host l ds env_config t u r call) [
            | inl kept ↦ record {
              entries =
                  subst
                    (λ (m : List (String × EnvironmentCacheEntry Env)). Holds (λ k x. Unit {0}) m)
                    (sym kept) h.entries;
              found =
                  ap (λ (m : List (String × EnvironmentCacheEntry Env)). Map.get own_key m) kept
                  ∙ h.found;
              after = omega (arith, h.after, forward);
            }
            | inr (s, e, made) ↦
                let time : host.now u.world ≡ host.now s =
                  ap (λ (x : Engine S Env Code Failure). host.now x.world) made
                  ∙ same_time l ds e t s in
                subst (λ (x : Engine S Env Code Failure). IsStored environment born x) (sym made)
                  (cached-IsStored l ds e environment born (record t { world = s }) h.entries
                    (omega (arith, h.after, forward, time)) (omega (arith, within, time))
                    (ground (
                      arith,
                      h.found,
                      Map.get-insert (generate_environment_cache_key host l ds) own_key
                          (record {
                            environment = e;
                            language = l;
                            dependencies = ds;
                            timestamp = host.now s;
                          })
                          t.environment_cache,
                    )))
          ]
        ]

    Uses-IsStored :
        {start used : Engine S Env Code Failure} (environment : Env) (born : ℕ)
        → Uses start used
        → IsStored environment born start
        → host.now used.world ≤ born + eviction_age
        → IsStored environment born used
    Uses-IsStored environment born nothing h within = h
    Uses-IsStored environment born (waited uses s forward) h within =
        let before = Uses-IsStored environment born uses h (omega (arith, forward, within)) in
        record {
          entries = before.entries;
          found = before.found;
          after = omega (arith, before.after, forward);
        }
    Uses-IsStored environment born (asked {t} {u} l ds env_config r uses call forward own) h
          within =
        asked-IsStored l ds env_config environment born t u r call forward within own
          (Uses-IsStored environment born uses h (omega (arith, forward, within)))

    -- An environment that was created is given again for the same language and the same
    -- dependencies, whatever the rest of the configuration, by a call that changes nothing, for two
    -- hours: however many environments are asked for in between, with or without success, if other
    -- languages and dependencies have other keys and the clock does not go back.
    pub get_or_create_environment_reused :
        (env_config other_config : EnvironmentConfig)
        (engine engine' used : Engine S Env Code Failure) (environment : Env)
        → Map.IsMap engine.environment_cache
        → cached_environment host language dependencies engine ≡ none
        → get_or_create_environment host language env_config dependencies engine
          ≡ (engine', ok environment)
        → Uses engine' used
        → host.now used.world ≤ host.now engine'.world + eviction_age
        → get_or_create_environment host language other_config dependencies used
          ≡ (used, ok environment)
    unfolding get_or_create_environment
    get_or_create_environment_reused env_config other_config engine engine' used environment is_map
          new h uses within =
        let made : create_environment host language env_config dependencies engine
            ≡ (engine', ok environment) =
          ground arith in
        let (s, e) =
          create_environment-Created host language dependencies env_config engine engine'
            environment made in
        let time : host.now engine'.world ≡ host.now s =
          ap (λ (x : Engine S Env Code Failure). host.now x.world) e
          ∙ same_time language dependencies environment engine s in
        let put : Map.get own_key
              (Map.insert own_key (entry_of environment (host.now s)) engine.environment_cache)
            ≡ some (entry_of environment (host.now s)) =
          ground (
            arith,
            Map.get-insert own_key own_key (entry_of environment (host.now s))
                engine.environment_cache,
            ==_refl own_key,
          ) in
        let stored : IsStored environment (host.now s) engine' =
          subst (λ (x : Engine S Env Code Failure). IsStored environment (host.now s) x) (sym e)
            (cached-IsStored language dependencies environment environment (host.now s)
              (record engine { world = s }) (record { is_map = is_map; each = λ k x found. tt })
              (omega arith) (omega arith) put) in
        again environment other_config used (
          get-IsStored environment (host.now s) used
            (Uses-IsStored environment (host.now s) uses stored (omega (arith, within, time)))
            (omega (arith, within, time)))
