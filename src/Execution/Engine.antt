-- ===== src/Execution/Engine.antt =====
-- `HookExecutionEngine` of src/execution.rs: its state, and what it asks of other parts. Times are
-- in milliseconds since the epoch. Hashes, the language plugins, the file filter and the file
-- system are fields of a `Host`.
pub mod Locks
pub mod ResultCache
pub mod Environments
pub mod Entries
pub mod Reuse
pub mod Single
pub mod Sound
pub mod Ends
pub mod Uses
mod Tests
pub mod Example
use snp.Prelude.{ℕ, ◌-◌, Bool, ltb, if◌then◌else◌, List, Option, none, some, String, Result, ◌≡◌}
use snp.Prelude.Stateful.{Stateful}
use snp.Core.Hook.{Hook}
use snp.Execution.HookResult.{HookExecutionResult}
use snp.Execution.Sequential.{FileChangeDetectorConfig}

-- The errors that the engine makes itself, and those that it passes on.
pub data SnpError (Fault : Type 0) : Type 0 where
  environment_setup_failed : (language hook_id message : String) → SnpError Fault
  other : Fault → SnpError Fault

-- The fields of `EnvironmentConfig` that the engine sets.
pub record EnvironmentConfig : Type 0 where
  pub additional_dependencies : List String
  pub hook_timeout : Option ℕ
  pub working_directory : Option String
  pub repository_path : Option String

pub record HookCacheEntry (Code Failure : Type 0) : Type 0 where
  pub result : HookExecutionResult Code Failure
  pub files_hash : String
  pub hook_hash : String
  pub timestamp : ℕ

pub record EnvironmentCacheEntry (Env : Type 0) : Type 0 where
  pub environment : Env
  pub language : String
  pub dependencies : List String
  pub timestamp : ℕ

-- The engine; `world` is all that lies outside of it.
pub record Engine (S Env Code Failure : Type 0) : Type 0 where
  pub hook_cache : List (String × HookCacheEntry Code Failure)
  pub environment_cache : List (String × EnvironmentCacheEntry Env)
  pub file_locks : List (String × Unit {0})
  pub world : S

-- The fields of a hook that its hash is made of, in the order of `generate_hook_hash`.
pub record HookKey : Type 0 where
  pub id : String
  pub entry : String
  pub args : List String
  pub language : String
  pub additional_dependencies : List String
  pub files : Option String
  pub exclude : Option String
  pub types : List String
  pub exclude_types : List String

-- A language plugin (the trait `Language`).
pub record Plugin (S Env Dependency Code Failure Fault : Type 0) : Type 0 where
  pub setup_environment : EnvironmentConfig → Stateful S (SnpError Fault) Env
  pub resolve_dependencies : List String → Stateful S (SnpError Fault) (List Dependency)
  pub install_dependencies : Env → List Dependency → Stateful S (SnpError Fault) (Unit {0})
  pub execute_hook :
      Hook → Env → List String → Stateful S (SnpError Fault) (HookExecutionResult Code Failure)

-- `system` is the plugin that is always registered under its name.
pub record Host (S Env Dependency Code Failure Fault : Type 0) : Type 0 where
  pub get_plugin : String → Option (Plugin S Env Dependency Code Failure Fault)
  pub system : Plugin S Env Dependency Code Failure Fault
  pub get_plugin-system : get_plugin "system" ≡ some system
  pub now : S → ℕ
  pub which : String → S → Bool
  pub find_repository_for_hook : String → Stateful S (SnpError Fault) (Option String)
  pub filtered_files : Hook → List String → Result (SnpError Fault) (List String)
  pub apply_incremental_detection :
      FileChangeDetectorConfig → List String → Stateful S (SnpError Fault) (List String)
  pub generate_files_hash : List String → S → String
  pub hash_hook : HookKey → String
  pub hash_environment : String → List String → String

-- `SystemTime::elapsed`: there is none when the clock has gone back.
unfoldable pub elapsed : (timestamp now : ℕ) → Option ℕ
elapsed timestamp now = if ltb now timestamp then none else some (now - timestamp)

module _ {S Env Code Failure Fault : Type 0} where
  -- A step of the world outside, taken from the engine.
  abbrev pub moved :
      {A : Type 0}
      → Engine S Env Code Failure
      → S × Result (SnpError Fault) A
      → Engine S Env Code Failure × Result (SnpError Fault) A
  moved engine (s, r) = (record engine { world = s }, r)

  abbrev pub outside :
      {A : Type 0}
      → Stateful S (SnpError Fault) A
      → Stateful (Engine S Env Code Failure) (SnpError Fault) A
  outside m engine = moved engine (m engine.world)
