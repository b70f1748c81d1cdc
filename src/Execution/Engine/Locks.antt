-- ===== src/Execution/Engine/Locks.antt =====
-- `acquire_file_locks_sync` of src/execution.rs: the lock of a file is the presence of its key.
use snp.Prelude.{List, [], ◌∷◌, String, string_eq, if◌then◌else◌}
use snp.Prelude.Map
use snp.Execution.Engine.{Engine}

-- The loop of `entry(file).or_insert_with`.
unfoldable pub ensure_locks : List String → List (String × Unit {0}) → List (String × Unit {0})
ensure_locks [] locks = locks
ensure_locks (file ∷ files) locks =
    ensure_locks files (if Map.contains_key file locks then locks else Map.insert file tt locks)

unfoldable pub acquire_file_locks_sync :
    {S Env Code Failure : Type 0}
    → List String
    → Engine S Env Code Failure
    → Engine S Env Code Failure
unfolding ensure_locks
acquire_file_locks_sync files engine = record engine {
  file_locks = ensure_locks files engine.file_locks;
}
