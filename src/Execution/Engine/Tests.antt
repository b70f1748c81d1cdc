-- ===== src/Execution/Engine/Tests.antt =====
-- The caches of src/execution.rs on the engine of the example.
use snp.Prelude.{
  ℕ, ◌≡◌, ◌≤◌, ◌⊎◌, refl, arith, false, [], ◌∷◌, none, some, String, string_eq, length, ok, err,
  List,
}
use snp.Prelude.Map
use snp.Core.Hook
use snp.Core.Hook.{Hook}
use snp.Execution.HookResult
use snp.Execution.HookResult.{HookExecutionResult}
use snp.Execution.Sequential.{execute_hooks_sequential}
use snp.Execution.Engine.{
  Engine, EnvironmentConfig, HookCacheEntry, SnpError, environment_setup_failed,
}
use snp.Execution.Engine.ResultCache.{check_cache, store_in_cache, generate_hook_hash, is_old}
use snp.Execution.Engine.Environments.{
  get_or_create_environment, create_environment, cached_environment, cache_environment, install,
  generate_environment_cache_key,
}
use snp.Execution.Engine.Reuse.{
  check_cache-store_in_cache, store_in_cache_bound, get_or_create_environment-again,
}
use snp.Execution.Engine.Uses.{nothing, waited, asked, get_or_create_environment_reused}
use snp.Execution.Engine.Sound.{IsSound, engine_runner, execute_hooks_sequential-IsSound}
use snp.Execution.Engine.Example.{host, fresh, lint, format, files, config}

abbrev passed : HookExecutionResult ℕ String
passed = HookResult.succeed 0 100 (HookResult.new "lint")

-- Ten minutes later the hook runs with another concurrency, which its hash leaves out.
check_cache-store_in_cache_example :
    check_cache host
      (record lint { concurrent = false })
      files
      (record (store_in_cache host lint files passed fresh) { world = 601000 })
    ≡ some passed
unfolding generate_hook_hash Hook.new
check_cache-store_in_cache_example =
    check_cache-store_in_cache host lint files fresh (λ k. omega arith)
      (record lint { concurrent = false }) passed 601000 refl refl refl (omega arith) (omega arith)

store_in_cache_bound_example :
    (length (store_in_cache host lint files passed fresh).hook_cache ≤ 1000)
    ⊎ ((k : String) (x : HookCacheEntry ℕ String)
        → Map.get k (store_in_cache host lint files passed fresh).hook_cache ≡ some x
        → is_old 1000 x ≡ false)
store_in_cache_bound_example = store_in_cache_bound host lint files fresh (λ k. omega arith) passed

abbrev env_config : EnvironmentConfig
env_config = record {
  additional_dependencies = "clippy" ∷ [];
  hook_timeout = some 60000;
  working_directory = none;
  repository_path = none;
}

abbrev set_up : Engine ℕ String ℕ String
set_up = cache_environment host "system" ("clippy" ∷ []) "venv" (record fresh { world = 1015 })

set_up_created :
    get_or_create_environment host "system" env_config ("clippy" ∷ []) fresh ≡ (set_up, ok "venv")
unfolding get_or_create_environment create_environment cached_environment install Map.get
set_up_created = refl

get_or_create_environment-again_case :
    get_or_create_environment host "system"
      (record env_config { repository_path = some "repos/a" })
      ("clippy" ∷ [])
      (record set_up { world = 86000000 })
    ≡ (record set_up { world = 86000000 }, ok "venv")
unfolding cached_environment Map.get cache_environment
get_or_create_environment-again_case =
    get_or_create_environment-again host "system" ("clippy" ∷ []) env_config
      (record env_config { repository_path = some "repos/a" }) fresh set_up "venv" 86000000
      (λ k. omega arith) refl set_up_created (omega arith) (omega arith)

-- A language that has no plugin.
ruby_refused :
    get_or_create_environment host "ruby" env_config [] set_up
    ≡ (set_up, err (environment_setup_failed "ruby" "unknown" "Language plugin not found: ruby"))
unfolding get_or_create_environment create_environment cached_environment install Map.get Map.insert
    cache_environment generate_environment_cache_key
ruby_refused = refl

ruby_key :
    generate_environment_cache_key host "ruby" []
      ≡ generate_environment_cache_key host "system" ("clippy" ∷ [])
    → ◌≡◌ {A = String} "ruby" "system" × ◌≡◌ {A = List String} [] ("clippy" ∷ [])
unfolding generate_environment_cache_key
ruby_key same = cc

-- An hour later, for a hook of a repository; meanwhile a hook asked for a language without a plugin.
get_or_create_environment_reused_example :
    get_or_create_environment host "system"
      (record env_config { repository_path = some "repos/a" })
      ("clippy" ∷ [])
      (record set_up { world = 3601015 })
    ≡ (record set_up { world = 3601015 }, ok "venv")
unfolding cached_environment Map.get cache_environment
get_or_create_environment_reused_example =
    get_or_create_environment_reused host "system" ("clippy" ∷ []) env_config
      (record env_config { repository_path = some "repos/a" }) fresh set_up
      (record set_up { world = 3601015 }) "venv" (λ k. omega arith) refl set_up_created
      (waited
        (asked "ruby" [] env_config
          (err (environment_setup_failed "ruby" "unknown" "Language plugin not found: ruby"))
          nothing ruby_refused (omega arith) ruby_key)
        3601015 (omega arith))
      (omega arith)

abbrev fail_setup : Hook → SnpError String → String
fail_setup hook e = "EnvironmentSetupFailed"

fresh-IsSound : IsSound host fresh
unfolding Map.get
fresh-IsSound = record {
  results = record { is_map = λ k. omega arith; each = λ k x found. absurd (cc) };
  environments = record { is_map = λ k. omega arith; each = λ k x found. absurd (cc) };
  locks = λ k. omega arith;
}

execute_hooks_sequential-IsSound_example :
    IsSound host
      (execute_hooks_sequential
        (engine_runner host 255 fail_setup)
        config
        (lint ∷ format ∷ [])
        fresh).0
execute_hooks_sequential-IsSound_example =
    execute_hooks_sequential-IsSound host 255 fail_setup config (lint ∷ format ∷ []) fresh
      fresh-IsSound
