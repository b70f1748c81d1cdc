-- ===== src/Chaining/Executor.antt =====
-- The phases of `HookChainExecutor::execute_chain` of src/hook_chaining.rs. A set of hooks is the list of them, of
-- which only membership is asked; timestamps and measured durations are left out, and the efficiency
-- of a phase is the pair of the quotient's terms.
pub mod Chain
pub mod Results
pub mod Invariant
use snp.Prelude.{
  ℕ, zero, suc, ◌+◌, Bool, true, false, not, ◌||◌, ◌&&◌, List, [], ◌∷◌, ◌++◌, Option, none, some,
  String, string_eq, ◌==◌, if◌then◌else◌, length, is_empty, contains, all, retain, find, ltb,
  Result, ok, err,
}
use Prim.Native.String.{◌++◌ as ◌+text+◌}
use snp.Prelude.Map
use snp.Prelude.Partial.{◌>>=◌}
use snp.Core.Hook.{Hook}
use snp.Execution.HookResult.{HookExecutionResult}
use snp.Chaining.{ChainedHook, HookChain, FailureStrategy, FailureBehavior}
use snp.Chaining.Resolver.{is_critical_behavior}
use snp.Chaining.Conditions.{HookResult, World, evaluate_conditions}
use snp.Chaining.Single.{execute_single_hook_with_behavior}
use snp.Chaining.Planner.{
  PhaseExecutionMode, sequential, parallel, pipeline, ExecutionPhase, ExecutionPlan, create_plan,
}

pub data MessageType : Type 0 where
  information warning error data_message command : MessageType

pub record HookMessage : Type 0 where
  pub from_hook : String
  pub to_hook : Option String
  pub message_type : MessageType
  pub content : String

pub record PhaseResult : Type 0 where
  pub phase_number : ℕ
  pub hooks_executed : List String
  pub hooks_failed : List String
  pub parallel_efficiency : ℕ × ℕ

pub record ChainExecutionResult : Type 0 where
  pub success : Bool
  pub executed_hooks : List HookResult
  pub skipped_hooks : List String
  pub failed_dependencies : List (String × List String)
  pub execution_phases : List PhaseResult
  pub communication_log : List HookMessage

-- The locals of `execute_chain`: the result so far, the hooks executed and those that failed.
pub record ChainState : Type 0 where
  pub result : ChainExecutionResult
  pub executed_hook_ids : List String
  pub failed_hook_ids : List String

abbrev pub is_fail_fast : FailureStrategy → Bool
is_fail_fast FailureStrategy.fail_fast = true
is_fail_fast _ = false

abbrev pub find_hook : String → List ChainedHook → Option ChainedHook
find_hook id hooks = find (λ h. h.hook.id == id) hooks

abbrev pub all_deps_ok : ChainState → ChainedHook → Bool
all_deps_ok s h =
    all (λ d. contains s.executed_hook_ids d && not (contains s.failed_hook_ids d)) h.dependencies

abbrev pub failed_deps : ChainState → ChainedHook → List String
failed_deps s h = retain (contains s.failed_hook_ids) h.dependencies

-- `unwrap_or(true)`.
abbrev pub or_true : Result String Bool → Bool
or_true (ok b) = b
or_true (err _) = true

abbrev pub skip_hook : String → ChainExecutionResult → ChainExecutionResult
skip_hook id r = record r { skipped_hooks = r.skipped_hooks ++ id ∷ [] }

abbrev pub note_failed : String → List String → ChainExecutionResult → ChainExecutionResult
note_failed id deps r = record r { failed_dependencies = Map.insert id deps r.failed_dependencies }

abbrev pub with_result : ChainState → ChainExecutionResult → ChainState
with_result s r = record s { result = r }

-- A hook has run: its id, its message and its result are written down.
unfoldable pub after_hook :
    ChainedHook → HookResult → ChainState × PhaseResult → ChainState × PhaseResult
after_hook h r (s, p) =
    let log : HookMessage =
      if r.success
      then record {
        from_hook = h.hook.id;
        to_hook = none;
        message_type = information;
        content = "Successfully executed: " +text+ r.stdout;
      }
      else record {
        from_hook = h.hook.id;
        to_hook = none;
        message_type = error;
        content = "Execution failed: " +text+ r.stderr;
      } in
    (
      record {
        result = record s.result {
          success = s.result.success && r.success;
          executed_hooks = s.result.executed_hooks ++ r ∷ [];
          communication_log = s.result.communication_log ++ log ∷ [];
        };
        executed_hook_ids = h.hook.id ∷ s.executed_hook_ids;
        failed_hook_ids = if r.success then s.failed_hook_ids else h.hook.id ∷ s.failed_hook_ids;
      },
      record p {
        hooks_executed = if r.success then p.hooks_executed ++ h.hook.id ∷ [] else p.hooks_executed;
        hooks_failed = if r.success then p.hooks_failed else p.hooks_failed ++ h.hook.id ∷ [];
      },
    )

-- A failure after which the sequential loop breaks.
abbrev pub stops_phase : FailureStrategy → ChainedHook → HookResult → Bool
stops_phase strategy h r =
    not r.success && (is_fail_fast strategy || is_critical_behavior h.failure_behavior)

abbrev pub skip_one : String → Option ChainedHook → ChainState → ChainState
skip_one id none s = with_result s (skip_hook id s.result)
skip_one id (some h) s = with_result s (
    if is_empty (failed_deps s h)
    then skip_hook id s.result
    else note_failed id (failed_deps s h) (skip_hook id s.result))

-- One phase of the rest of the plan: a stop under `FailFast` skips all its hooks.
unfoldable pub skip_remaining : List ChainedHook → List String → ChainState → ChainState
skip_remaining hooks [] s = s
skip_remaining hooks (id ∷ ids) s = skip_remaining hooks ids (skip_one id (find_hook id hooks) s)

unfoldable pub skip_phases : List ChainedHook → List ExecutionPhase → ChainState → ChainState
skip_phases hooks [] s = s
skip_phases hooks (p ∷ ps) s = skip_phases hooks ps (skip_remaining hooks p.hooks s)

abbrev pub never_breaks : ChainedHook → HookResult → Bool
never_breaks h r = false

abbrev pub set_efficiency : ℕ → ChainState × PhaseResult → ChainState × PhaseResult
set_efficiency hooks (s, p) = (
  s,
  if ltb 1 hooks then record p { parallel_efficiency = (length p.hooks_executed, hooks) } else p,
)

abbrev pub push_phase : ChainState × PhaseResult → ChainState
push_phase (s, p) =
    with_result s (record s.result { execution_phases = s.result.execution_phases ++ p ∷ [] })

abbrev pub new_phase : ℕ → PhaseResult
new_phase n = record {
  phase_number = n;
  hooks_executed = [];
  hooks_failed = [];
  parallel_efficiency = (1, 1);
}

abbrev pub new_state : ChainState
new_state = record {
  result = record {
    success = true;
    executed_hooks = [];
    skipped_hooks = [];
    failed_dependencies = [];
    execution_phases = [];
    communication_log = [];
  };
  executed_hook_ids = [];
  failed_hook_ids = [];
}

module _ (world : World) (elapsed : ℕ → ℕ) where
  -- One hook of a phase: is it to run, and what is written of it when not.
  abbrev pub consider :
      String → Option ChainedHook → List ChainedHook × ChainState → List ChainedHook × ChainState
  consider id none (hs, t) = (hs, t)
  consider id (some h) (hs, t) =
      if all_deps_ok t h
      then (if or_true (evaluate_conditions world h.conditions)
          then (hs ++ h ∷ [], t)
          else (hs, with_result t (skip_hook id t.result)))
      else (hs, with_result t (note_failed id (failed_deps t h) (skip_hook id t.result)))

  -- The hooks of a phase that are to run.
  unfoldable pub select_hooks :
      List ChainedHook → List String → List ChainedHook × ChainState → List ChainedHook × ChainState
  select_hooks hooks [] acc = acc
  select_hooks hooks (id ∷ ids) acc = select_hooks hooks ids (consider id (find_hook id hooks) acc)

  -- The `for` loop of a phase, with the test of its `break`; `none` is a panic.
  unfoldable pub run_hooks :
      (ChainedHook → HookResult → Bool)
      → List ChainedHook
      → ChainState × PhaseResult
      → Option (ChainState × PhaseResult)
  run_hooks breaks [] acc = some acc
  run_hooks breaks (h ∷ hs) acc = execute_single_hook_with_behavior elapsed h >>= λ r.
      let rest = run_hooks breaks hs (after_hook h r acc) in
      if breaks h r then some (after_hook h r acc) else rest

  unfoldable pub run_mode :
      FailureStrategy
      → PhaseExecutionMode
      → ℕ
      → List ChainedHook
      → ChainState × PhaseResult
      → Option (ChainState × PhaseResult)
  run_mode strategy sequential size hs acc = run_hooks (stops_phase strategy) hs acc
  run_mode strategy (parallel _) size hs acc =
      run_hooks never_breaks hs acc >>= λ done. some (set_efficiency size done)
  run_mode strategy (pipeline _) size hs acc = run_hooks never_breaks hs acc

  unfoldable pub run_phase :
      FailureStrategy → List ChainedHook → ExecutionPhase → ChainState → Option ChainState
  run_phase strategy hooks phase s =
      let (hs, t) = select_hooks hooks phase.hooks ([], s) in
      run_mode strategy phase.execution_mode (length phase.hooks) hs
        (t, new_phase phase.phase_number)
      >>= λ done. some (push_phase done)

  unfoldable pub run_phases :
      FailureStrategy → List ChainedHook → List ExecutionPhase → ChainState → Option ChainState
  run_phases strategy hooks [] s = some s
  run_phases strategy hooks (phase ∷ phases) s = run_phase strategy hooks phase s >>= λ t.
      let rest = run_phases strategy hooks phases t in
      if not t.result.success && is_fail_fast strategy
      then some (skip_phases hooks phases t)
      else rest
