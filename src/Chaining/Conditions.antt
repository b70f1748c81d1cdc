-- ===== src/Chaining/Conditions.antt =====
-- `ConditionEvaluator` of src/hook_chaining.rs, and `evaluate_conditions` of the executor. What the
-- file system, the process's environment, the regex library and the registered evaluators answer is
-- a parameter. Times are numbers.
pub mod Laws
use snp.Prelude.{
  ℕ, Bool, true, false, ◌||◌, List, [], ◌∷◌, Option, none, some, String, string_eq, ◌==◌, any, ltb,
  Result, ok, err, ◌>>=◌, if◌then◌else◌,
}
use snp.Prelude.Map
use snp.Execution.HookResult.{HookExecutionResult}
use snp.Chaining.{
  ExecutionCondition, file_exists, file_modified, environment_variable, previous_hook_success,
  previous_hook_output, git_branch, git_has_changes, custom,
}

pub record GitState : Type 0 where
  pub current_branch : String
  pub has_changes : Bool
  pub modified_files : List String

-- The errors of a hook that the executor makes.
pub data HookExecutionError : Type 0 where
  execution_timeout :
      (hook_id : String) (timeout : ℕ) (partial_output : Option String) → HookExecutionError
  execution_failed :
      (hook_id : String) (exit_code : ℕ) (stdout stderr : String) → HookExecutionError

abbrev pub HookResult : Type 0
HookResult = HookExecutionResult ℕ HookExecutionError

-- Less the snapshot of the file system, which nothing reads.
pub record ConditionContext : Type 0 where
  pub execution_results : List (String × HookResult)
  pub environment_variables : List (String × String)
  pub git_state : Option GitState

-- What a condition asks of its surroundings. `metadata` holds a file's modification time, if its
-- metadata can be read and has one; `regex` is a compiled pattern's test, if the pattern compiles;
-- an evaluator's error is a text.
pub record World : Type 0 where
  pub exists : String → Bool
  pub metadata : String → Option (Option ℕ)
  pub regex : String → Option (String → Bool)
  pub path_starts_with : String → String → Bool
  pub variables : List (String × String)
  pub evaluators : List (String × (List (String × String) → ConditionContext → Result String Bool))

abbrev pub modified_after : ℕ → Option (Option ℕ) → Bool
modified_after since (some (some modified)) = ltb since modified
modified_after since _ = false

abbrev pub has_value : Option String → Option String → Bool
has_value (some env_value) (some expected) = env_value == expected
has_value (some env_value) none = true
has_value none _ = false

abbrev pub result_success : Option HookResult → Bool
result_success (some r) = r.success
result_success none = false

abbrev pub matches : Option (String → Bool) → String → Bool
matches (some is_match) text = is_match text
matches none text = false

abbrev pub output_matches : Option (String → Bool) → Option HookResult → Bool
output_matches regex (some r) = matches regex r.stdout || matches regex r.stderr
output_matches regex none = false

abbrev pub branch_matches : Option (String → Bool) → Option GitState → Bool
branch_matches regex (some g) = matches regex g.current_branch
branch_matches regex none = false

abbrev pub changes_match : (String → String → Bool) → Option (List String) → Option GitState → Bool
changes_match starts_with (some filters) (some g) =
    any (λ m. any (λ f. starts_with m f || m == f) filters) g.modified_files
changes_match starts_with none (some g) = g.has_changes
changes_match starts_with paths none = false

abbrev pub run_evaluator :
    Option (List (String × String) → ConditionContext → Result String Bool)
    → List (String × String)
    → ConditionContext
    → Result String Bool
run_evaluator (some evaluator) params context = evaluator params context
run_evaluator none params context = ok false

module _ (world : World) where
  unfoldable pub evaluate : ExecutionCondition → ConditionContext → Result String Bool
  evaluate (file_exists path) context = ok (world.exists path)
  evaluate (file_modified path since) context =
      ok (if world.exists path then modified_after since (world.metadata path) else false)
  evaluate (environment_variable name value) context =
      ok (has_value (Map.get name context.environment_variables) value)
  evaluate (previous_hook_success hook_id) context =
      ok (result_success (Map.get hook_id context.execution_results))
  evaluate (previous_hook_output hook_id pattern) context =
      ok (output_matches (world.regex pattern) (Map.get hook_id context.execution_results))
  evaluate (git_branch pattern) context =
      ok (branch_matches (world.regex pattern) context.git_state)
  evaluate (git_has_changes paths) context =
      ok (changes_match world.path_starts_with paths context.git_state)
  evaluate (custom evaluator params) context =
      run_evaluator (Map.get evaluator world.evaluators) params context

  -- The context that the executor makes for every evaluation.
  abbrev pub basic_context : ConditionContext
  basic_context = record {
    execution_results = [];
    environment_variables = world.variables;
    git_state = none;
  }

  unfoldable pub evaluate_conditions : List ExecutionCondition → Result String Bool
  evaluate_conditions [] = ok true
  evaluate_conditions (c ∷ cs) =
      let rest = evaluate_conditions cs in
      do result ← evaluate c basic_context; if result then rest else ok false
