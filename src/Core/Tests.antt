-- ===== src/Core/Tests.antt =====
-- Hooks and stages of src/core.rs.
use snp.Prelude.{◌≡◌, ◌↔◌, ◌⊎◌, refl, true, [], ◌∷◌, none, some, String, any, ok, count}
use snp.Core.Stage.{as_str, from_str, all_stages, stage_eq, pre_commit, pre_push, manual}
use snp.Core.Stage.Names.{from_str-as_str, from_str-eq-ok, all_stages_complete}
use snp.Core.Hook.{
  Hook, HookConfig, validate, from_config, runs_for_stage, stages_of, read_stages, build,
}
use snp.Core.Hook.Laws.{IsValid, validate_iff, reads, runs_for_stage-from_config}

abbrev lint : HookConfig
lint = record {
  id = "lint";
  name = none;
  entry = "run-lint";
  language = "system";
  files = some "\\.rs$";
  exclude = none;
  types = none;
  types_or = none;
  exclude_types = none;
  additional_dependencies = none;
  args = none;
  always_run = none;
  fail_fast = none;
  pass_filenames = none;
  stages = some ("push" ∷ "manual" ∷ []);
  verbose = none;
  depends_on = none;
  concurrent = none;
}

abbrev lint_hook : Hook
lint_hook = build lint (pre_push ∷ manual ∷ [])

lint_read : from_config lint ≡ ok lint_hook
unfolding from_config stages_of read_stages from_str
lint_read = refl

runs_for_stage-from_config_case :
    runs_for_stage lint_hook pre_push ≡ any (reads pre_push) ("push" ∷ "manual" ∷ [])
runs_for_stage-from_config_case = runs_for_stage-from_config lint lint_hook pre_push lint_read

validate_iff_case : (validate (λ s. true) lint_hook ≡ ok tt) ↔ IsValid (λ s. true) lint_hook
validate_iff_case = validate_iff (λ s. true) lint_hook

from_str-as_str_case : from_str (as_str manual) ≡ ok manual
from_str-as_str_case = from_str-as_str manual

abbrev push : String
push = "push"

push_read : from_str push ≡ ok pre_push
unfolding from_str
push_read = refl

from_str-eq-ok_case :
    (push ≡ as_str pre_push)
    ⊎ ((push ≡ "commit") × (pre_push ≡ pre_commit))
    ⊎ ((push ≡ "push") × (pre_push ≡ pre_push))
from_str-eq-ok_case = from_str-eq-ok push pre_push push_read

manual_listed_once : count manual all_stages ≡ 1
manual_listed_once = all_stages_complete manual
