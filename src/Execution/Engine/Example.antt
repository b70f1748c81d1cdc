-- ===== src/Execution/Engine/Example.antt =====
-- A small engine for the tests of src/execution.rs: one plugin, on a clock of milliseconds.
use snp.Prelude.{
  ℕ, ◌+◌, refl, true, false, if◌then◌else◌, List, [], ◌∷◌, none, some, String, ◌==◌, string_eq, ok,
}
use snp.Core.Stage.{pre_commit}
use snp.Core.Hook
use snp.Core.Hook.{Hook}
use snp.Execution.HookResult
use snp.Execution.HookResult.{HookExecutionResult}
use snp.Execution.Sequential.{ExecutionConfig}
use snp.Execution.Engine.{Host, Plugin, Engine}

abbrev pub plugin : Plugin ℕ String String ℕ String String
plugin = record {
  setup_environment = λ config now. (now + 10, ok "venv");
  resolve_dependencies = λ names now. (now, ok names);
  install_dependencies = λ environment names now. (now + 5, ok tt);
  execute_hook = λ hook environment files now.
      (now + 100, ok (HookResult.succeed 0 0 (HookResult.new hook.id)));
}

abbrev pub host : Host ℕ String String ℕ String String
host = record {
  get_plugin = λ name. if name == "system" then some plugin else none;
  system = plugin;
  get_plugin-system = refl;
  now = λ now. now;
  which = λ name now. true;
  find_repository_for_hook = λ id now. (now, ok none);
  filtered_files = λ hook files. ok files;
  apply_incremental_detection = λ config files now. (now, ok files);
  generate_files_hash = λ files now. "f1";
  hash_hook = λ key. key.entry;
  hash_environment = λ language names. "e1";
}

abbrev pub fresh : Engine ℕ String ℕ String
fresh = record { hook_cache = []; environment_cache = []; file_locks = []; world = 1000 }

abbrev pub lint : Hook
lint = record (Hook.new "lint" "run-lint" "system") { additional_dependencies = "clippy" ∷ [] }

abbrev pub format : Hook
format = record (Hook.new "format" "run-format" "system") {
  additional_dependencies = "clippy" ∷ [];
}

abbrev pub files : List String
files = "a.rs" ∷ []

abbrev pub config : ExecutionConfig
config = record {
  stage = pre_commit;
  files = files;
  fail_fast = false;
  hook_timeout = 60000;
  max_parallel_hooks = 4;
  working_directory = none;
  incremental_config = none;
}
