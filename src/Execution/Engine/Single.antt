-- ===== src/Execution/Engine/Single.antt =====
-- `execute_single_hook` and `execute_hook_with_environment` of src/execution.rs. Events, logging and
-- output to the user change nothing here: the failure of an event is passed over.
use Prim.Native.Char.{code}
use snp.Prelude.{
  ℕ, Bool, false, ◌&&◌, ◌||◌, not, nat_beq, if◌then◌else◌, List, [], ◌∷◌, Option, none, some,
  String, ◌==◌, string_eq, is_empty, ok,
}
use snp.Prelude.Stateful.{Stateful, ◌>>=◌, lift}
use snp.Core.Hook.{Hook, unwrap_or, runs_for_stage}
use snp.Chaining.Words.{contains_text, split_whitespace}
use snp.Execution.HookResult
use snp.Execution.HookResult.{HookExecutionResult}
use snp.Execution.Sequential.{ExecutionConfig}
use snp.Execution.Engine.{Host, Plugin, Engine, EnvironmentConfig, SnpError, elapsed, outside}
use snp.Execution.Engine.Locks.{acquire_file_locks_sync}
use snp.Execution.Engine.ResultCache.{check_cache, store_in_cache}
use snp.Execution.Engine.Environments.{get_or_create_environment}

unfoldable pub language_of : Hook → String
language_of hook = if hook.language == "" then "system" else hook.language

-- `starts_with('/')`.
abbrev pub is_absolute : String → Bool
is_absolute String.[] = false
is_absolute (String.◌∷◌ c s) = nat_beq (code c) 47

abbrev pub first_or : List String → String → String
first_or [] d = d
first_or (w ∷ ws) d = w

unfoldable pub environment_config :
    ExecutionConfig
    → (dependencies : List String) (repository_path : Option String) → EnvironmentConfig
environment_config config dependencies repository_path = record {
  additional_dependencies = dependencies;
  hook_timeout = some config.hook_timeout;
  working_directory = config.working_directory;
  repository_path = repository_path;
}

module _ {S Env Dependency Code Failure Fault : Type 0}
    (host : Host S Env Dependency Code Failure Fault) where
  unfoldable pub needs_repo_installation : Hook → S → Bool
  needs_repo_installation hook s =
      hook.language == "script"
      || (not (is_absolute hook.entry)
          && (not (contains_text hook.entry "/")
              && not (host.which (first_or (split_whitespace hook.entry) hook.entry) s)))

  -- The repository of a hook that has to be installed.
  unfoldable pub repository_of :
      Hook → Stateful (Engine S Env Code Failure) (SnpError Fault) (Option String)
  unfolding needs_repo_installation
  repository_of hook engine =
      if needs_repo_installation hook engine.world
      then outside (host.find_repository_for_hook hook.id) engine
      else (engine, ok none)

  -- An unknown language falls back to the system.
  unfoldable pub plugin_for : String → Plugin S Env Dependency Code Failure Fault
  plugin_for language = unwrap_or (host.get_plugin language) host.system

  abbrev pub changed_files :
      ExecutionConfig
      → List String
      → Stateful (Engine S Env Code Failure) (SnpError Fault) (List String)
  changed_files config files engine = elim config.incremental_config [
    | none ↦ (engine, ok files)
    | some c ↦ outside (host.apply_incremental_detection c files) engine
  ]

  -- `execute_hook` of the plugin, and the time since the start.
  unfoldable pub run_hook :
      ℕ
      → Hook
      → Env
      → List String
      → Stateful (Engine S Env Code Failure) (SnpError Fault) (HookExecutionResult Code Failure)
  unfolding plugin_for language_of elapsed
  run_hook start_time hook environment files = do
    r ← outside ((plugin_for (language_of hook)).execute_hook hook environment files)
    λ engine. (
      engine,
      ok (record r { duration = unwrap_or (elapsed start_time (host.now engine.world)) 0 }),
    )

  abbrev pub lock_files : Hook → List String → Engine S Env Code Failure → Engine S Env Code Failure
  lock_files hook files engine =
      if hook.concurrent then acquire_file_locks_sync files engine else engine

  -- Only a success is cached.
  abbrev pub keep_success :
      Hook
      → List String
      → HookExecutionResult Code Failure
      → Engine S Env Code Failure
      → Engine S Env Code Failure
  keep_success hook files r engine =
      if r.success then store_in_cache host hook files r engine else engine

  -- The part of `execute_single_hook` behind the look-up in the cache.
  unfoldable pub execute_uncached :
      ℕ
      → Hook
      → List String
      → ExecutionConfig
      → Stateful (Engine S Env Code Failure) (SnpError Fault) (HookExecutionResult Code Failure)
  unfolding repository_of environment_config get_or_create_environment acquire_file_locks_sync
      run_hook store_in_cache
  execute_uncached start_time hook files config = do
    repository ← repository_of hook
    environment ←
        get_or_create_environment host hook.language
          (environment_config config hook.additional_dependencies repository)
          hook.additional_dependencies
    r ← λ engine. run_hook start_time hook environment files (lock_files hook files engine)
    λ engine. (keep_success hook files r engine, ok r)

  -- The part behind the file filter.
  unfoldable pub execute_on_files :
      ℕ
      → Hook
      → List String
      → ExecutionConfig
      → Stateful (Engine S Env Code Failure) (SnpError Fault) (HookExecutionResult Code Failure)
  unfolding HookResult.new HookResult.skip HookResult.with_files check_cache execute_uncached
  execute_on_files start_time hook files config engine =
      if is_empty files && not hook.always_run
      then (engine, ok (HookResult.with_files [] [] (HookResult.skip (HookResult.new hook.id))))
      else elim (check_cache host hook files engine) [
        | some r ↦ (engine, ok r)
        | none ↦ execute_uncached start_time hook files config engine
      ]

  unfoldable pub execute_single_hook :
      Hook
      → ExecutionConfig
      → Stateful (Engine S Env Code Failure) (SnpError Fault) (HookExecutionResult Code Failure)
  unfolding HookResult.new runs_for_stage execute_on_files
  execute_single_hook hook config engine =
      if not (runs_for_stage hook config.stage)
      then (engine, ok (HookResult.new hook.id))
      else (do
        filtered ← lift (host.filtered_files hook config.files)
        files ← changed_files config filtered
        execute_on_files (host.now engine.world) hook files config)
          engine

  -- A hook of the parallel run.
  unfoldable pub execute_hook_with_environment :
      Hook
      → ExecutionConfig
      → Env
      → Stateful (Engine S Env Code Failure) (SnpError Fault) (HookExecutionResult Code Failure)
  unfolding HookResult.new HookResult.skip HookResult.with_files runs_for_stage run_hook
  execute_hook_with_environment hook config environment engine =
      if not (runs_for_stage hook config.stage)
      then (engine, ok (HookResult.new hook.id))
      else (do
        files ← lift (host.filtered_files hook config.files)
        λ engine'.
            if is_empty files && not hook.always_run
            then (
              engine',
              ok (HookResult.with_files [] [] (HookResult.skip (HookResult.new hook.id))),
            )
            else run_hook (host.now engine.world) hook environment files engine')
          engine
