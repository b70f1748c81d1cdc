-- ===== src/Execution/Engine/Environments.antt =====
-- The cache of environments in src/execution.rs: `generate_environment_cache_key` and
-- `get_or_create_environment`.
use Prim.Native.String.{◌++◌ as ◌+text+◌}
use snp.Prelude.{
  ℕ, Bool, ltb, true, false, ◌&&◌, if◌then◌else◌, List, [], ◌∷◌, Option, none, some, String, ◌==◌,
  string_eq, is_empty, Result, ok, err,
}
use snp.Prelude.Map
use snp.Prelude.Stateful.{Stateful, ◌>>=◌, return}
use snp.Core.Hook.{unwrap_or}
use snp.Execution.Engine.{
  Host, Plugin, Engine, EnvironmentCacheEntry, EnvironmentConfig, SnpError,
  environment_setup_failed, elapsed, outside,
}
use snp.Execution.Engine.ResultCache.{limit}

-- A day.
abbrev pub environment_ttl : ℕ
environment_ttl = 86400000

-- `==` of lists of texts.
unfoldable pub same_texts : List String → List String → Bool
same_texts [] [] = true
same_texts [] (d ∷ ds) = false
same_texts (c ∷ cs) [] = false
same_texts (c ∷ cs) (d ∷ ds) = (c == d) && same_texts cs ds

-- The filter of the eviction: older than two hours.
abbrev pub is_stale : {Env : Type 0} → ℕ → EnvironmentCacheEntry Env → Bool
is_stale now entry = ltb 7200000 (unwrap_or (elapsed entry.timestamp now) 0)

-- The test of the look-up.
unfoldable pub is_current :
    {Env : Type 0} → ℕ → String → List String → EnvironmentCacheEntry Env → Bool
unfolding elapsed same_texts
is_current now language dependencies entry =
    ltb (unwrap_or (elapsed entry.timestamp now) environment_ttl) environment_ttl
    && (entry.language == language && same_texts entry.dependencies dependencies)

module _ {S Env Dependency Code Failure Fault : Type 0}
    (host : Host S Env Dependency Code Failure Fault) where
  unfoldable pub generate_environment_cache_key : String → List String → String
  generate_environment_cache_key language dependencies =
      "env_" +text+ (language +text+ ("_" +text+ host.hash_environment language dependencies))

  -- The look-up of `get_or_create_environment`.
  unfoldable pub cached_environment : String → List String → Engine S Env Code Failure → Option Env
  unfolding is_current generate_environment_cache_key
  cached_environment language dependencies engine =
      elim (Map.get (generate_environment_cache_key language dependencies)
        engine.environment_cache) [
          | none ↦ none
          | some entry ↦
              if is_current (host.now engine.world) language dependencies entry
              then some entry.environment
              else none
        ]

  unfoldable pub cache_environment :
      String → List String → Env → Engine S Env Code Failure → Engine S Env Code Failure
  unfolding limit elapsed generate_environment_cache_key
  cache_environment language dependencies environment engine =
      let now = host.now engine.world in
      let entry : EnvironmentCacheEntry Env = record {
        environment = environment;
        language = language;
        dependencies = dependencies;
        timestamp = now;
      } in
      record engine {
        environment_cache = limit 50 (is_stale now) (
            Map.insert (generate_environment_cache_key language dependencies) entry
              engine.environment_cache);
      }

  -- The installation of the dependencies, if there are any.
  unfoldable pub install :
      Plugin S Env Dependency Code Failure Fault
      → List String
      → Env
      → Stateful S (SnpError Fault) (Unit {0})
  install plugin dependencies environment = if is_empty dependencies then return tt else (do
    resolved ← plugin.resolve_dependencies dependencies
    plugin.install_dependencies environment resolved)

  abbrev pub require_plugin :
      String
      → Option (Plugin S Env Dependency Code Failure Fault)
      → Result (SnpError Fault) (Plugin S Env Dependency Code Failure Fault)
  require_plugin language none =
      err (
        environment_setup_failed language "unknown" ("Language plugin not found: " +text+ language))
  require_plugin language (some plugin) = ok plugin

  -- The part behind the look-up.
  unfoldable pub create_environment :
      String
      → EnvironmentConfig
      → List String
      → Stateful (Engine S Env Code Failure) (SnpError Fault) Env
  unfolding install cache_environment
  create_environment language env_config dependencies = do
    plugin ← λ engine. (engine, require_plugin language (host.get_plugin language))
    environment ← outside (plugin.setup_environment env_config)
    _ ← outside (install plugin dependencies environment)
    λ engine. (cache_environment language dependencies environment engine, ok environment)

  unfoldable pub get_or_create_environment :
      String
      → EnvironmentConfig
      → List String
      → Stateful (Engine S Env Code Failure) (SnpError Fault) Env
  unfolding cached_environment create_environment
  get_or_create_environment language env_config dependencies engine =
      elim (cached_environment language dependencies engine) [
        | some environment ↦ (engine, ok environment)
        | none ↦ create_environment language env_config dependencies engine
      ]
