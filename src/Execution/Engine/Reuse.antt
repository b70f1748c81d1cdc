-- ===== src/Execution/Engine/Reuse.antt =====
-- When src/execution.rs gives a stored result or environment again.
use snp.Prelude.{
  ℕ, ◌+◌, ◌-◌, ◌≡◌, ◌≤◌, ◌<◌, refl, sym, subst, ap, arith, true, false, List, [], ◌∷◌, Option, none,
  some, String, string_eq, ==_refl, ==_iff, ◌⊎◌, length, Result, ok, err,
}
use snp.Prelude.Map
use snp.Prelude.Stateful.{Stateful, and_then, ◌>>=◌}
use snp.Core.Hook.{Hook, unwrap_or}
use snp.Execution.HookResult.{HookExecutionResult}
use snp.Execution.Engine.{
  Host, Engine, HookCacheEntry, EnvironmentCacheEntry, EnvironmentConfig, SnpError, elapsed, Plugin,
  outside, moved,
}
use snp.Execution.Engine.ResultCache.{
  is_old, is_usable, limit, check_cache, store_in_cache, generate_hook_hash, result_key, cache_ttl,
}
use snp.Execution.Engine.Environments.{
  is_stale, is_current, same_texts, install, require_plugin, cached_environment, cache_environment,
  get_or_create_environment, create_environment, generate_environment_cache_key, environment_ttl,
}
use snp.Execution.Engine.Entries.{get-limit, limit_bound}

pub same_texts_refl : (cs : List String) → same_texts cs cs ≡ true
unfolding same_texts
same_texts_refl [] = refl
same_texts_refl (c ∷ cs) = ground (arith, same_texts_refl cs, ==_refl c)

-- The age of an entry is read from a clock that has not gone back.
pub elapsed_of_le : (t now d : ℕ) → t ≤ now → unwrap_or (elapsed t now) d ≡ now - t
unfolding elapsed
elapsed_of_le t now d h = ground arith

module _ {S Env Dependency Code Failure Fault : Type 0}
    (host : Host S Env Dependency Code Failure Fault) where
  is_usable-within_ttl :
      (now : ℕ) (files_hash hook_hash : String) (entry : HookCacheEntry Code Failure)
      → entry.files_hash ≡ files_hash
      → entry.hook_hash ≡ hook_hash
      → entry.timestamp ≤ now
      → now < entry.timestamp + cache_ttl
      → is_usable host now files_hash hook_hash entry ≡ true
  unfolding is_usable
  is_usable-within_ttl now files_hash hook_hash entry e e' after within = ground (
    arith,
    elapsed_of_le entry.timestamp now cache_ttl after,
    ==_iff entry.files_hash files_hash,
    ==_iff entry.hook_hash hook_hash,
  )

  check_cache_found :
      (hook : Hook) (files : List String) (engine : Engine S Env Code Failure)
      (entry : HookCacheEntry Code Failure)
      → Map.get (result_key hook.id (host.generate_files_hash files engine.world)) engine.hook_cache
        ≡ some entry
      → is_usable host
          (host.now engine.world)
          (host.generate_files_hash files engine.world)
          (generate_hook_hash host hook)
          entry
        ≡ true
      → check_cache host hook files engine ≡ some entry.result
  unfolding check_cache
  check_cache_found hook files engine entry found usable = ground arith

  module _ (hook : Hook) (files : List String) (engine : Engine S Env Code Failure)
      (is_map : Map.IsMap engine.hook_cache) where
    -- A stored result is found again, for a hook with the same id and the same hash, as long as the
    -- files have the same hash and less than an hour has passed.
    pub check_cache-store_in_cache :
        (later : Hook) (r : HookExecutionResult Code Failure) (s : S)
        → later.id ≡ hook.id
        → generate_hook_hash host later ≡ generate_hook_hash host hook
        → host.generate_files_hash files s ≡ host.generate_files_hash files engine.world
        → host.now engine.world ≤ host.now s
        → host.now s < host.now engine.world + cache_ttl
        → check_cache host later files
            (record (store_in_cache host hook files r engine) { world = s })
          ≡ some r
    unfolding store_in_cache
    check_cache-store_in_cache later r s same_id same_hash same_files after within =
        let now = host.now engine.world in
        let files_hash = host.generate_files_hash files engine.world in
        let key = result_key hook.id files_hash in
        let entry : HookCacheEntry Code Failure = record {
          result = r;
          files_hash = files_hash;
          hook_hash = generate_hook_hash host hook;
          timestamp = now;
        } in
        let m = Map.insert key entry engine.hook_cache in
        let fresh : is_old now entry ≡ false = ground (arith, elapsed_of_le now now 0) in
        let put : Map.get key m ≡ some entry =
          ground (arith, Map.get-insert key key entry engine.hook_cache, ==_refl key) in
        let kept : Map.get key (limit 1000 (is_old now) m) ≡ some entry =
          get-limit (is_old now) 1000 key entry m
            (Map.insert-IsMap key entry engine.hook_cache is_map key) put fresh in
        let same_key : key ≡ result_key later.id (host.generate_files_hash files s) = cc in
        check_cache_found later files
          (record (store_in_cache host hook files r engine) { world = s }) entry
          (subst (λ (k : String). Map.get k (limit 1000 (is_old now) m) ≡ some entry) same_key kept)
          (is_usable-within_ttl (host.now s) (host.generate_files_hash files s)
            (generate_hook_hash host later) entry (sym same_files) (sym same_hash) after within)

    -- After a store the cache has at most a thousand entries, or none that is older than an hour.
    pub store_in_cache_bound :
        (r : HookExecutionResult Code Failure)
        → (length (store_in_cache host hook files r engine).hook_cache ≤ 1000)
          ⊎ ((k : String) (x : HookCacheEntry Code Failure)
              → Map.get k (store_in_cache host hook files r engine).hook_cache ≡ some x
              → is_old (host.now engine.world) x ≡ false)
    unfolding store_in_cache
    store_in_cache_bound r =
        limit_bound (is_old (host.now engine.world)) 1000 _
          (Map.insert-IsMap _ _ engine.hook_cache is_map)

-- Inversion of a step outside that was a success.
and_then-moved :
    {S Env Code Failure Fault A B : Type 0} (engine : Engine S Env Code Failure)
    (p : S × Result (SnpError Fault) A)
    (f : A → Stateful (Engine S Env Code Failure) (SnpError Fault) B)
    {engine' : Engine S Env Code Failure} {b : B}
    → and_then (moved engine p) f ≡ (engine', ok b)
    → (s : S) × (a : A) × (f a (record engine { world = s }) ≡ (engine', ok b))
and_then-moved engine (s, ok a) f h = (s, a, h)
and_then-moved engine (s, err x) f h = cc

module _ {S Env Dependency Code Failure Fault : Type 0}
    (host : Host S Env Dependency Code Failure Fault) (language : String)
    (dependencies : List String) where
  pub is_current-within_ttl :
      (now : ℕ) (entry : EnvironmentCacheEntry Env)
      → entry.language ≡ language
      → entry.dependencies ≡ dependencies
      → entry.timestamp ≤ now
      → now < entry.timestamp + environment_ttl
      → is_current now language dependencies entry ≡ true
  unfolding is_current
  is_current-within_ttl now entry e e' after within = ground (
    arith,
    elapsed_of_le entry.timestamp now environment_ttl after,
    ==_iff entry.language language,
    same_texts_refl dependencies,
    ap (λ (ds : List String). same_texts ds dependencies) e',
  )

  pub cached_environment_found :
      (engine : Engine S Env Code Failure) (entry : EnvironmentCacheEntry Env)
      → Map.get (generate_environment_cache_key host language dependencies) engine.environment_cache
        ≡ some entry
      → is_current (host.now engine.world) language dependencies entry ≡ true
      → cached_environment host language dependencies engine ≡ some entry.environment
  unfolding cached_environment
  cached_environment_found engine entry found current = ground arith

  cached_environment-cache_environment :
      (environment : Env) (engine : Engine S Env Code Failure) (s : S)
      → Map.IsMap engine.environment_cache
      → host.now engine.world ≤ host.now s
      → host.now s < host.now engine.world + environment_ttl
      → cached_environment host language dependencies
          (record (cache_environment host language dependencies environment engine) { world = s })
        ≡ some environment
  unfolding cache_environment
  cached_environment-cache_environment environment engine s is_map after within =
      let now = host.now engine.world in
      let key = generate_environment_cache_key host language dependencies in
      let entry : EnvironmentCacheEntry Env = record {
        environment = environment;
        language = language;
        dependencies = dependencies;
        timestamp = now;
      } in
      let m = Map.insert key entry engine.environment_cache in
      let fresh : is_stale now entry ≡ false = ground (arith, elapsed_of_le now now 0) in
      let put : Map.get key m ≡ some entry =
        ground (arith, Map.get-insert key key entry engine.environment_cache, ==_refl key) in
      cached_environment_found
        (record (cache_environment host language dependencies environment engine) { world = s })
        entry
        (get-limit (is_stale now) 50 key entry m
          (Map.insert-IsMap key entry engine.environment_cache is_map key) put fresh)
        (is_current-within_ttl (host.now s) entry refl refl after within)

  -- A new environment is cached, and the rest of the caches is as before.
  module _ (env_config : EnvironmentConfig) (engine engine' : Engine S Env Code Failure)
      (environment : Env) where
    abbrev pub Created : Type 0
    Created =
        (s : S) × (engine'
          ≡ cache_environment host language dependencies environment (record engine { world = s }))

    engine-cached :
        (e e' : Env) (from to : Engine S Env Code Failure)
        → ◌≡◌ {A = Engine S Env Code Failure × Result (SnpError Fault) Env}
            (cache_environment host language dependencies e from, ok e)
            (to, ok e')
        → to ≡ cache_environment host language dependencies e' from
    engine-cached e e' from to h = cc

    created_with :
        (plugin : Option (Plugin S Env Dependency Code Failure Fault))
        → and_then
            (engine, require_plugin host language plugin)
            (λ found. do
              e ← outside (found.setup_environment env_config)
              _ ← outside (install host found dependencies e)
              λ later. (cache_environment host language dependencies e later, ok e))
          ≡ (engine', ok environment)
        → Created
    created_with none h = cc
    created_with (some plugin) h =
        let (s, e, h') =
          and_then-moved engine (plugin.setup_environment env_config engine.world) _ h in
        let (s', u, h'') =
          and_then-moved (record engine { world = s }) (install host plugin dependencies e s) _
            h' in
        (s', engine-cached e environment (record engine { world = s' }) engine' h'')

    pub create_environment-Created :
        create_environment host language env_config dependencies engine ≡ (engine', ok environment)
        → Created
    unfolding create_environment
    create_environment-Created h = created_with (host.get_plugin language) h

  -- The next call with the caches as the creation left them, less than a day later, gives the
  -- environment again, whatever the rest of the configuration.
  pub get_or_create_environment-again :
      (env_config other_config : EnvironmentConfig) (engine engine' : Engine S Env Code Failure)
      (environment : Env) (s : S)
      → Map.IsMap engine.environment_cache
      → cached_environment host language dependencies engine ≡ none
      → get_or_create_environment host language env_config dependencies engine
        ≡ (engine', ok environment)
      → host.now engine'.world ≤ host.now s
      → host.now s < host.now engine'.world + environment_ttl
      → get_or_create_environment host language other_config dependencies
          (record engine' { world = s })
        ≡ (record engine' { world = s }, ok environment)
  unfolding get_or_create_environment cache_environment
  get_or_create_environment-again env_config other_config engine engine' environment s is_map new h
        after within =
      let made : create_environment host language env_config dependencies engine
          ≡ (engine', ok environment) =
        ground arith in
      let (s₀, e) = create_environment-Created env_config engine engine' environment made in
      let same_time : host.now engine'.world ≡ host.now s₀ =
        ap (λ (x : Engine S Env Code Failure). host.now x.world) e in
      let found : cached_environment host language dependencies (record engine' { world = s })
          ≡ some environment =
        subst
          (λ (x : Engine S Env Code Failure).
            cached_environment host language dependencies (record x { world = s })
            ≡ some environment)
          (sym e)
          (cached_environment-cache_environment environment (record engine { world = s₀ }) s is_map
            (omega arith) (omega arith)) in
      ground arith
