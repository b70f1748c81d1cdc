-- ===== src/Execution/Outcome.antt =====
-- `ExecutionResult` of src/execution.rs, the tally of a run.
use snp.Prelude.{
  ℕ, ◌+◌, Bool, true, false, List, [], ◌∷◌, ◌++◌, String, if◌then◌else◌, contains, string_eq,
}
use snp.Execution.HookResult.{HookExecutionResult}

pub record ExecutionResult (Code Failure : Type 0) : Type 0 where
  pub success : Bool
  pub hooks_executed : ℕ
  pub hooks_passed : List (HookExecutionResult Code Failure)
  pub hooks_failed : List (HookExecutionResult Code Failure)
  pub hooks_skipped : List String
  pub total_duration : ℕ
  pub files_modified : List String

-- The loop over the modified files of a hook: each is noted once.
unfoldable pub note_files : List String → List String → List String
note_files [] noted = noted
note_files (file ∷ files) noted =
    note_files files (if contains noted file then noted else noted ++ file ∷ [])

module _ {Code Failure : Type 0} where
  unfoldable pub new : ExecutionResult Code Failure
  new = record {
    success = true;
    hooks_executed = 0;
    hooks_passed = [];
    hooks_failed = [];
    hooks_skipped = [];
    total_duration = 0;
    files_modified = [];
  }

  unfoldable pub add_result :
      HookExecutionResult Code Failure → ExecutionResult Code Failure → ExecutionResult Code Failure
  add_result r t =
      let t' = record t {
        hooks_executed = t.hooks_executed + 1;
        total_duration = t.total_duration + r.duration;
        files_modified = note_files r.files_modified t.files_modified;
      } in
      if r.success
      then record t' { hooks_passed = t'.hooks_passed ++ r ∷ [] }
      else record t' { success = false; hooks_failed = t'.hooks_failed ++ r ∷ [] }

  unfoldable pub add_skipped : String → ExecutionResult Code Failure → ExecutionResult Code Failure
  add_skipped hook_id t = record t { hooks_skipped = t.hooks_skipped ++ hook_id ∷ [] }
