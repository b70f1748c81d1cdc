-- ===== src/Chaining/Single.antt =====
-- `execute_single_hook_with_behavior` of src/hook_chaining.rs, which looks at the text of the hook's
-- command and runs nothing. `elapsed` is what the clock says after each attempt; durations are in
-- milliseconds and do not overflow, the number of attempts is 32 bits wide and wraps.
pub mod Laws
use snp.Prelude.{
  ℕ, zero, suc, ◌+◌, ◌*◌, ◌%◌, ◌^◌, max, Bool, true, false, not, ◌||◌, ◌&&◌, List, [], ◌∷◌, Option,
  none, some, String, string_eq, ◌==◌, if◌then◌else◌, ltb,
}
use Prim.Native.String.{◌++◌}
use snp.Core.Hook.{Hook}
use snp.Chaining.{ChainedHook, FailureBehavior, continue_on_failure, optional, retry_on_failure}
use snp.Chaining.Conditions.{HookResult, HookExecutionError, execution_timeout, execution_failed}
use snp.Chaining.Words.{
  contains_text, is_whitespace, is_quote, is_redirection, split_whitespace, join_spaces, before,
  trim_matches,
}

abbrev pub attempts_of : FailureBehavior → ℕ
attempts_of (retry_on_failure max_retries delay) = (max_retries + 1) % 2 ^ 32
attempts_of _ = 1

abbrev pub delay_of : FailureBehavior → ℕ
delay_of (retry_on_failure max_retries delay) = delay
delay_of _ = 10

-- The behaviours under which a failed attempt is the result.
abbrev pub is_tolerant : FailureBehavior → Bool
is_tolerant optional = true
is_tolerant continue_on_failure = true
is_tolerant _ = false

abbrev pub under_a_second : Option ℕ → Bool
under_a_second none = false
under_a_second (some timeout) = ltb timeout 1000

unfoldable pub simulated_success : ChainedHook → Bool
simulated_success h =
    if h.hook.entry == "false" || contains_text h.hook.entry "false"
    then false
    else (if contains_text h.hook.entry "sleep"
        then not (under_a_second h.timeout_override)
        else true)

unfoldable pub times_out : ChainedHook → Bool
times_out h = contains_text h.hook.entry "sleep" && under_a_second h.timeout_override

abbrev pub timeout_value : Option ℕ → ℕ
timeout_value none = 0
timeout_value (some timeout) = timeout

unfoldable pub timeout_result : ChainedHook → HookResult
timeout_result h = record {
  hook_id = h.hook.id;
  success = false;
  skipped = false;
  skip_reason = none;
  exit_code = none;
  duration = timeout_value h.timeout_override;
  files_processed = [];
  files_modified = [];
  stdout = "";
  stderr = "Hook " ++ h.hook.id ++ " timed out";
  error =
      some (execution_timeout h.hook.id (timeout_value h.timeout_override) (some "sleep command"));
}

abbrev pub succeeded_text : ChainedHook → String
succeeded_text h = "Hook " ++ h.hook.id ++ " executed successfully"

abbrev pub failed_text : ChainedHook → String
failed_text h = "Hook " ++ h.hook.id ++ " failed"

-- What `echo` prints, from the words of the command.
abbrev pub echo_output : ChainedHook → List String → String
echo_output h (_ ∷ w ∷ ws) =
    let content = join_spaces (w ∷ ws) in
    if contains_text h.hook.entry ">"
    then trim_matches is_quote (trim_matches is_whitespace (before is_redirection content))
    else trim_matches is_quote content
echo_output h _ = succeeded_text h

unfoldable pub simulated_output : ChainedHook → String
simulated_output h =
    if contains_text h.hook.entry "echo"
    then echo_output h (split_whitespace h.hook.entry)
    else (if contains_text h.hook.entry "cat" && contains_text h.hook.entry "/tmp/hook_data.txt"
        then "data"
        else succeeded_text h)

module _ (elapsed : ℕ → ℕ) where
  unfoldable pub attempt_result : ChainedHook → ℕ → HookResult
  attempt_result h attempt =
      let success = simulated_success h in
      record {
        hook_id = h.hook.id;
        success = success;
        skipped = false;
        skip_reason = none;
        exit_code = if success then some 0 else some 1;
        duration =
            max (elapsed attempt)
              (if ltb 0 attempt then delay_of h.failure_behavior * attempt else 10);
        files_processed = [];
        files_modified = [];
        stdout = if success then simulated_output h else "";
        stderr = if success then "" else failed_text h;
        error = if success then none else some (execution_failed h.hook.id 1 "" (failed_text h));
      }

  -- The loop over the attempts, from `attempt` on, with the last failed result.
  unfoldable pub attempt_loop :
      ChainedHook → (left attempt : ℕ) → Option HookResult → Option HookResult
  attempt_loop h zero attempt last_result = last_result
  attempt_loop h (suc left) attempt last_result =
      let r = attempt_result h attempt in
      let rest = attempt_loop h left (attempt + 1) (some r) in
      if times_out h
      then some (timeout_result h)
      else (if r.success || is_tolerant h.failure_behavior then some r else rest)

  -- `none` is the panic of `last_result.unwrap()`.
  unfoldable pub execute_single_hook_with_behavior : ChainedHook → Option HookResult
  execute_single_hook_with_behavior h = attempt_loop h (attempts_of h.failure_behavior) 0 none
