-- ===== src/Execution/Engine/Sound.antt =====
-- What src/execution.rs keeps true of the caches and the locks of its engine, one hook after another.
use snp.Prelude.{
  ℕ, ◌≡◌, refl, arith, true, ◌&&◌, not, if◌then◌else◌, List, [], ◌∷◌, Option, some, String,
  string_eq, is_empty, Option-cases, inl, inr, if_ind, Result, subst,
}
use snp.Prelude.Map
use snp.Prelude.Stateful.{Stateful, Keeps, lift, bind-Keeps}
use snp.Core.Hook.{Hook, runs_for_stage}
use snp.Execution.HookResult.{HookExecutionResult}
use snp.Execution.Outcome
use snp.Execution.Outcome.{ExecutionResult}
use snp.Execution.Sequential.{ExecutionConfig, Runner, step, run_from, execute_hooks_sequential}
use snp.Execution.Engine.{
  Host, Engine, HookCacheEntry, EnvironmentCacheEntry, EnvironmentConfig, SnpError, outside, moved,
}
use snp.Execution.Engine.Locks.{ensure_locks, acquire_file_locks_sync}
use snp.Execution.Engine.ResultCache.{check_cache, store_in_cache, result_key}
use snp.Execution.Engine.Environments.{
  install, require_plugin, cached_environment, cache_environment, create_environment,
  get_or_create_environment, generate_environment_cache_key,
}
use snp.Execution.Engine.Entries.{Holds, insert-Holds, limit-Holds}
use snp.Execution.Engine.Single.{
  repository_of, needs_repo_installation, environment_config, changed_files, run_hook, plugin_for,
  language_of, lock_files, keep_success, execute_uncached, execute_on_files, execute_single_hook,
}

module _ {S Env Dependency Code Failure Fault : Type 0}
    (host : Host S Env Dependency Code Failure Fault) where
  abbrev pub IsSuccess : String → HookCacheEntry Code Failure → Type 0
  IsSuccess k x = x.result.success ≡ true

  abbrev pub IsFiled : String → EnvironmentCacheEntry Env → Type 0
  IsFiled k x = k ≡ generate_environment_cache_key host x.language x.dependencies

  -- Only successes are cached, an environment is filed under its own key, and no key stands twice.
  pub record IsSound (engine : Engine S Env Code Failure) : Type 0 where
    pub results : Holds IsSuccess engine.hook_cache
    pub environments : Holds IsFiled engine.environment_cache
    pub locks : Map.IsMap engine.file_locks

  moved-IsSound :
      {A : Type 0} (engine : Engine S Env Code Failure) (p : S × Result (SnpError Fault) A)
      → IsSound engine
      → IsSound (moved engine p).0
  moved-IsSound engine (s, r) h = record {
    results = h.results;
    environments = h.environments;
    locks = h.locks;
  }

  pub outside-Keeps : {A : Type 0} (m : Stateful S (SnpError Fault) A) → Keeps IsSound (outside m)
  outside-Keeps m engine h = moved-IsSound engine (m engine.world) h

  cache_environment-IsSound :
      (language : String) (dependencies : List String) (environment : Env)
      (engine : Engine S Env Code Failure)
      → IsSound engine
      → IsSound (cache_environment host language dependencies environment engine)
  unfolding cache_environment
  cache_environment-IsSound language dependencies environment engine h = record {
    results = h.results;
    environments = limit-Holds _ IsFiled 50 _ (insert-Holds IsFiled _ _ _ h.environments refl);
    locks = h.locks;
  }

  store_in_cache-IsSound :
      (hook : Hook) (files : List String) (r : HookExecutionResult Code Failure)
      (engine : Engine S Env Code Failure)
      → r.success ≡ true
      → IsSound engine
      → IsSound (store_in_cache host hook files r engine)
  unfolding store_in_cache
  store_in_cache-IsSound hook files r engine success h = record {
    results = limit-Holds _ IsSuccess 1000 _ (insert-Holds IsSuccess _ _ _ h.results success);
    environments = h.environments;
    locks = h.locks;
  }

  ensure_locks-IsMap :
      (files : List String) (locks : List (String × Unit {0}))
      → Map.IsMap locks
      → Map.IsMap (ensure_locks files locks)
  unfolding ensure_locks
  ensure_locks-IsMap [] locks h = h
  ensure_locks-IsMap (file ∷ files) locks h =
      ensure_locks-IsMap files
        (if Map.contains_key file locks then locks else Map.insert file tt locks)
        (if_ind (λ (m : List (String × Unit {0})). Map.IsMap m) (Map.contains_key file locks)
          (λ _. h) (λ _. Map.insert-IsMap file tt locks h))

  lock_files-IsSound :
      (hook : Hook) (files : List String) (engine : Engine S Env Code Failure)
      → IsSound engine
      → IsSound (lock_files host hook files engine)
  unfolding acquire_file_locks_sync
  lock_files-IsSound hook files engine h =
      if_ind IsSound hook.concurrent
        (λ _. record {
          results = h.results;
          environments = h.environments;
          locks = ensure_locks-IsMap files engine.file_locks h.locks;
        })
        (λ _. h)

  create_environment-Keeps :
      (language : String) (env_config : EnvironmentConfig) (dependencies : List String)
      → Keeps IsSound (create_environment host language env_config dependencies)
  unfolding create_environment
  create_environment-Keeps language env_config dependencies =
      bind-Keeps IsSound
        (λ engine. (engine, require_plugin host language (host.get_plugin language))) _
        (λ engine h. h)
        (λ plugin.
          bind-Keeps IsSound (outside (plugin.setup_environment env_config)) _
            (outside-Keeps (plugin.setup_environment env_config))
            (λ environment.
              bind-Keeps IsSound (outside (install host plugin dependencies environment)) _
                (outside-Keeps (install host plugin dependencies environment))
                (λ _. cache_environment-IsSound language dependencies environment)))

  pub get_or_create_environment-Keeps :
      (language : String) (env_config : EnvironmentConfig) (dependencies : List String)
      → Keeps IsSound (get_or_create_environment host language env_config dependencies)
  unfolding get_or_create_environment
  get_or_create_environment-Keeps language env_config dependencies engine h =
      elim (Option-cases (cached_environment host language dependencies engine)) [
        | inl new ↦
            rw (new, get_or_create_environment)
              (create_environment-Keeps language env_config dependencies engine h)
        | inr (environment, old) ↦ rw (old, get_or_create_environment) h
      ]

  pub repository_of-Keeps : (hook : Hook) → Keeps IsSound (repository_of host hook)
  unfolding repository_of
  repository_of-Keeps hook engine h =
      if_ind
        (λ (p : Engine S Env Code Failure × Result (SnpError Fault) (Option String)). IsSound p.0)
        (needs_repo_installation host hook engine.world)
        (λ _. outside-Keeps (host.find_repository_for_hook hook.id) engine h) (λ _. h)

  pub run_hook-Keeps :
      (start_time : ℕ) (hook : Hook) (environment : Env) (files : List String)
      → Keeps IsSound (run_hook host start_time hook environment files)
  unfolding run_hook
  run_hook-Keeps start_time hook environment files =
      bind-Keeps IsSound
        (outside ((plugin_for host (language_of hook)).execute_hook hook environment files)) _
        (outside-Keeps ((plugin_for host (language_of hook)).execute_hook hook environment files))
        (λ r engine h. h)

  keep_success-Keeps :
      (hook : Hook) (files : List String) (r : HookExecutionResult Code Failure)
      (engine : Engine S Env Code Failure)
      → IsSound engine
      → IsSound (keep_success host hook files r engine)
  keep_success-Keeps hook files r engine h =
      if_ind IsSound r.success (λ success. store_in_cache-IsSound hook files r engine success h)
        (λ _. h)

  execute_uncached-Keeps :
      (start_time : ℕ) (hook : Hook) (files : List String) (config : ExecutionConfig)
      → Keeps IsSound (execute_uncached host start_time hook files config)
  unfolding execute_uncached
  execute_uncached-Keeps start_time hook files config =
      bind-Keeps IsSound (repository_of host hook) _ (repository_of-Keeps hook) (λ repository.
        bind-Keeps IsSound
          (get_or_create_environment host hook.language
            (environment_config config hook.additional_dependencies repository)
            hook.additional_dependencies)
          _ (get_or_create_environment-Keeps hook.language _ hook.additional_dependencies)
          (λ environment.
            bind-Keeps IsSound
              (λ engine.
                run_hook host start_time hook environment files (lock_files host hook files engine))
              _
              (λ engine h.
                run_hook-Keeps start_time hook environment files (lock_files host hook files engine)
                  (lock_files-IsSound hook files engine h))
              (λ r. keep_success-Keeps hook files r)))

  abbrev HookStep : Type 0
  HookStep = Engine S Env Code Failure × Result (SnpError Fault) (HookExecutionResult Code Failure)

  execute_on_files-Keeps :
      (start_time : ℕ) (hook : Hook) (files : List String) (config : ExecutionConfig)
      → Keeps IsSound (execute_on_files host start_time hook files config)
  unfolding execute_on_files
  execute_on_files-Keeps start_time hook files config engine h =
      if_ind (λ (p : HookStep). IsSound p.0) (is_empty files && not hook.always_run) (λ _. h)
        (λ _. elim (Option-cases (check_cache host hook files engine)) [
          | inl new ↦ rw new (execute_uncached-Keeps start_time hook files config engine h)
          | inr (r, old) ↦ rw old h
        ])

  changed_files-Keeps :
      (config : ExecutionConfig) (files : List String)
      → Keeps IsSound (changed_files host config files)
  changed_files-Keeps config files engine h = elim (Option-cases config.incremental_config) [
    | inl off ↦ rw off h
    | inr (c, on) ↦ rw on (outside-Keeps (host.apply_incremental_detection c files) engine h)
  ]

  pub execute_single_hook-Keeps :
      (hook : Hook) (config : ExecutionConfig)
      → Keeps IsSound (execute_single_hook host hook config)
  unfolding execute_single_hook
  execute_single_hook-Keeps hook config engine h =
      if_ind (λ (p : HookStep). IsSound p.0) (not (runs_for_stage hook config.stage)) (λ _. h)
        (λ _.
          bind-Keeps IsSound (lift (host.filtered_files hook config.files)) _ (λ e k. k)
            (λ filtered.
              bind-Keeps IsSound (changed_files host config filtered) _
                (changed_files-Keeps config filtered)
                (λ files. execute_on_files-Keeps (host.now engine.world) hook files config))
            engine h)

  -- What the cache answers in a sound engine is a success.
  pub check_cache-success :
      (hook : Hook) (files : List String) (engine : Engine S Env Code Failure)
      (r : HookExecutionResult Code Failure)
      → IsSound engine
      → check_cache host hook files engine ≡ some r
      → r.success ≡ true
  unfolding check_cache
  check_cache-success hook files engine r h hit =
      let key = result_key hook.id (host.generate_files_hash files engine.world) in
      elim (Option-cases (Map.get key engine.hook_cache)) [
        | inl missing ↦ ground arith
        | inr (x, found) ↦
            let success : x.result.success ≡ true = h.results.each key x found in
            let same : x.result ≡ r = ground arith in
            subst (λ (y : HookExecutionResult Code Failure). y.success ≡ true) same success
      ]

  -- The engine as the runner of a sequential run.
  unfoldable pub engine_runner :
      Code
      → (Hook → SnpError Fault → Failure)
      → Runner (Engine S Env Code Failure) Code Failure (SnpError Fault)
  unfolding execute_single_hook
  engine_runner minus_one failed = record {
    execute_single_hook = execute_single_hook host;
    minus_one = minus_one;
    environment_setup_failed = failed;
  }

  module _ (minus_one : Code) (failed : Hook → SnpError Fault → Failure)
      (config : ExecutionConfig) where
    abbrev RunState : Type 0
    RunState = Engine S Env Code Failure × ExecutionResult Code Failure

    step-IsSound :
        (hook : Hook) (engine : Engine S Env Code Failure) (t : ExecutionResult Code Failure)
        → IsSound engine
        → IsSound (step (engine_runner minus_one failed) config hook engine t).0
    unfolding step engine_runner
    step-IsSound hook engine t h =
        if_ind (λ (p : RunState). IsSound p.0) (config.fail_fast && not t.success) (λ _. h)
          (λ _.
            if_ind (λ (p : RunState). IsSound p.0) (is_empty config.files && not hook.always_run)
              (λ _. h) (λ _. execute_single_hook-Keeps hook config engine h))

    run_from-IsSound :
        (hooks : List Hook) (engine : Engine S Env Code Failure) (t : ExecutionResult Code Failure)
        → IsSound engine
        → IsSound (run_from (engine_runner minus_one failed) config hooks engine t).0
    unfolding run_from
    run_from-IsSound [] engine t h = h
    run_from-IsSound (hook ∷ hooks) engine t h =
        let (engine', t') = step (engine_runner minus_one failed) config hook engine t in
        run_from-IsSound hooks engine' t' (step-IsSound hook engine t h)

    -- A sequential run keeps the engine sound, whatever the plugins answer.
    pub execute_hooks_sequential-IsSound :
        (hooks : List Hook) (engine : Engine S Env Code Failure)
        → IsSound engine
        → IsSound (execute_hooks_sequential (engine_runner minus_one failed) config hooks engine).0
    unfolding execute_hooks_sequential
    execute_hooks_sequential-IsSound hooks engine h = run_from-IsSound hooks engine Outcome.new h
