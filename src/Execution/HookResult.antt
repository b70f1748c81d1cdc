-- ===== src/Execution/HookResult.antt =====
-- `HookExecutionResult` of src/execution.rs. Durations are in milliseconds and paths are texts;
-- exit codes and the errors of hooks are parameters.
use snp.Prelude.{ℕ, Bool, true, false, List, [], Option, none, some, String}

pub record HookExecutionResult (Code Failure : Type 0) : Type 0 where
  pub hook_id : String
  pub success : Bool
  pub skipped : Bool
  pub skip_reason : Option String
  pub exit_code : Option Code
  pub duration : ℕ
  pub files_processed : List String
  pub files_modified : List String
  pub stdout : String
  pub stderr : String
  pub error : Option Failure

module _ {Code Failure : Type 0} where
  unfoldable pub new : String → HookExecutionResult Code Failure
  new hook_id = record {
    hook_id = hook_id;
    success = false;
    skipped = false;
    skip_reason = none;
    exit_code = none;
    duration = 0;
    files_processed = [];
    files_modified = [];
    stdout = "";
    stderr = "";
    error = none;
  }

  unfoldable pub succeed :
      Code → ℕ → HookExecutionResult Code Failure → HookExecutionResult Code Failure
  succeed exit_code duration r = record r {
    success = true;
    exit_code = some exit_code;
    duration = duration;
  }

  unfoldable pub failure :
      Code → ℕ → Failure → HookExecutionResult Code Failure → HookExecutionResult Code Failure
  failure exit_code duration error r = record r {
    success = false;
    exit_code = some exit_code;
    duration = duration;
    error = some error;
  }

  unfoldable pub with_output :
      String → String → HookExecutionResult Code Failure → HookExecutionResult Code Failure
  with_output stdout stderr r = record r { stdout = stdout; stderr = stderr }

  unfoldable pub with_files :
      List String
      → List String
      → HookExecutionResult Code Failure
      → HookExecutionResult Code Failure
  with_files processed modified r = record r {
    files_processed = processed;
    files_modified = modified;
  }

  unfoldable pub skip : HookExecutionResult Code Failure → HookExecutionResult Code Failure
  skip r = record r { skipped = true; success = false }

  unfoldable pub skipped_with_reason :
      String → HookExecutionResult Code Failure → HookExecutionResult Code Failure
  skipped_with_reason reason r = record r {
    skipped = true;
    skip_reason = some reason;
    success = false;
  }
