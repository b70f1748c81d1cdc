-- ===== src/Core/Hook.antt =====
-- `Hook` of src/core.rs, and the hook of a configuration file (src/config.rs) that it is made of.
-- Whether a text compiles as a regular expression is asked of the regex library, a parameter.
pub mod Laws
use snp.Prelude.{
  Bool, true, false, not, List, [], ◌∷◌, Option, none, some, String, if◌then◌else◌, is_empty,
  contains, Result, ok, err, ◌>>=◌, ◌>>◌, ◌==◌, string_eq,
}
use snp.Core.Stage.{
  Stage, stage_eq, pre_commit, from_str, ConfigError, invalid_value, missing_field, invalid_regex,
  validation_failed,
}

pub record Hook : Type 0 where
  pub id : String
  pub name : Option String
  pub entry : String
  pub language : String
  pub files : Option String
  pub exclude : Option String
  pub types : List String
  pub exclude_types : List String
  pub additional_dependencies : List String
  pub args : List String
  pub always_run : Bool
  pub fail_fast : Bool
  pub pass_filenames : Bool
  pub stages : List Stage
  pub verbose : Bool
  pub minimum_pre_commit_version : Option String
  pub depends_on : List String
  pub concurrent : Bool

-- `crate::config::Hook`.
pub record HookConfig : Type 0 where
  pub id : String
  pub name : Option String
  pub entry : String
  pub language : String
  pub files : Option String
  pub exclude : Option String
  pub types : Option (List String)
  pub types_or : Option (List String)
  pub exclude_types : Option (List String)
  pub additional_dependencies : Option (List String)
  pub args : Option (List String)
  pub always_run : Option Bool
  pub fail_fast : Option Bool
  pub pass_filenames : Option Bool
  pub stages : Option (List String)
  pub verbose : Option Bool
  pub depends_on : Option (List String)
  pub concurrent : Option Bool

unfoldable pub new : String → String → String → Hook
new id entry language = record {
  id = id;
  name = none;
  entry = entry;
  language = language;
  files = none;
  exclude = none;
  types = [];
  exclude_types = [];
  additional_dependencies = [];
  args = [];
  always_run = false;
  fail_fast = false;
  pass_filenames = true;
  stages = pre_commit ∷ [];
  verbose = false;
  minimum_pre_commit_version = none;
  depends_on = [];
  concurrent = true;
}

unfoldable pub runs_for_stage : Hook → Stage → Bool
runs_for_stage hook stage = contains hook.stages stage

-- `command` and `command_cow`.
unfoldable pub command : Hook → List String
command hook = hook.entry ∷ hook.args

abbrev pub check : Bool → ConfigError → Result ConfigError (Unit {0})
check passes e = if passes then ok tt else err e

-- The check of one optional pattern.
abbrev pub check_regex : (String → Bool) → String → Option String → Result ConfigError (Unit {0})
check_regex compiles field none = ok tt
check_regex compiles field (some pattern) = check (compiles pattern) (invalid_regex field pattern)

unfoldable pub validate : (String → Bool) → Hook → Result ConfigError (Unit {0})
validate compiles hook = do
  check (not (hook.id == "")) (missing_field "id")
  check (not (hook.entry == "")) (missing_field "entry")
  check_regex compiles "files" hook.files
  check_regex compiles "exclude" hook.exclude
  check (not (is_empty hook.stages)) (validation_failed hook.id)

-- `Option::unwrap_or`.
abbrev pub unwrap_or {ℓ} : {A : Type ℓ} → Option A → A → A
unwrap_or none d = d
unwrap_or (some a) d = a

-- The loop of `from_config` over the stage names; it stops at the first that is unknown.
unfoldable pub read_stages : List String → Result ConfigError (List Stage)
read_stages [] = ok []
read_stages (s ∷ ss) =
    let rest = read_stages ss in
    elim (from_str s) [
      | err _ ↦ err (invalid_value "stages" s)
      | ok stage ↦ do stages ← rest; ok (stage ∷ stages)
    ]

-- The stages of the configuration, or the default.
unfoldable pub stages_of : HookConfig → Result ConfigError (List Stage)
stages_of c = elim c.stages [ none ↦ ok (pre_commit ∷ []) | some names ↦ read_stages names ]

-- The builder calls of `from_config`.
unfoldable pub build : HookConfig → List Stage → Hook
unfolding new
build c stages = record (new c.id c.entry c.language) {
  stages = stages;
  always_run = unwrap_or c.always_run false;
  fail_fast = unwrap_or c.fail_fast false;
  pass_filenames = unwrap_or c.pass_filenames true;
  verbose = unwrap_or c.verbose false;
  name = c.name;
  files = c.files;
  exclude = c.exclude;
  types = unwrap_or c.types_or (unwrap_or c.types []);
  exclude_types = unwrap_or c.exclude_types [];
  additional_dependencies = unwrap_or c.additional_dependencies [];
  args = unwrap_or c.args [];
  depends_on = unwrap_or c.depends_on [];
  concurrent = unwrap_or c.concurrent true;
}

unfoldable pub from_config : HookConfig → Result ConfigError Hook
from_config c = do stages ← stages_of c; ok (build c stages)
