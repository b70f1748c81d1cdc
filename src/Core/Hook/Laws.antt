-- ===== src/Core/Hook/Laws.antt =====
-- What a hook that is read from a configuration, or validated, satisfies (src/core.rs).
use snp.Prelude.{
  ◌≡◌, ◌≢◌, ◌↔◌, refl, Bool, true, false, List, [], ◌∷◌, Option, none, some, String, Result, ok,
  err, ◌==◌, string_eq, ==_iff, arith, is_empty, ◌>>◌, contains, bind-ok, Result-cases,
  Option-cases, inl, inr, any, ◌||◌,
}
use snp.Core.Stage.{Stage, stage_eq, pre_commit, from_str, ConfigError}
use snp.Core.Hook.{
  Hook, HookConfig, validate, from_config, read_stages, check_regex, runs_for_stage, stages_of,
  build,
}

abbrev Compiles : (String → Bool) → Option String → Type 0
Compiles compiles none = Unit
Compiles compiles (some pattern) = compiles pattern ≡ true

pub record IsValid (compiles : String → Bool) (hook : Hook) : Type 0 where
  pub named : hook.id ≢ ""
  pub runs : hook.entry ≢ ""
  pub files_compile : Compiles compiles hook.files
  pub exclude_compile : Compiles compiles hook.exclude
  pub staged : hook.stages ≢ []

seq-ok :
    {A : Type 0} (m : Result ConfigError (Unit {0})) (k : Result ConfigError A) {a : A}
    → (m >> k) ≡ ok a
    → (m ≡ ok tt) × (k ≡ ok a)
seq-ok (ok tt) k h = (refl, h)
seq-ok (err x) k h = cc

check_regex-ok :
    (compiles : String → Bool) (field : String) (o : Option String)
    → (check_regex compiles field o ≡ ok tt) ↔ Compiles compiles o
check_regex-ok compiles field none = (λ h. tt, λ h. refl)
check_regex-ok compiles field (some p) = (λ h. ground arith, λ h. ground arith)

is_empty-nil : {A : Type 0} (xs : List A) → (is_empty xs ≡ false) ↔ (xs ≢ [])
is_empty-nil [] = (λ h e. cc, λ h. absurd (h refl))
is_empty-nil (x ∷ xs) = (λ h e. cc, λ h. refl)

validate_sound :
    (compiles : String → Bool) (hook : Hook)
    → validate compiles hook ≡ ok tt
    → IsValid compiles hook
unfolding validate
validate_sound compiles hook h =
    let (named, h₁) = seq-ok _ _ h in
    let (runs, h₂) = seq-ok _ _ h₁ in
    let (files, h₃) = seq-ok _ _ h₂ in
    let (exclude, staged) = seq-ok _ _ h₃ in
    record {
      named = ground (arith, ==_iff hook.id "");
      runs = ground (arith, ==_iff hook.entry "");
      files_compile = (check_regex-ok compiles "files" hook.files).0 files;
      exclude_compile = (check_regex-ok compiles "exclude" hook.exclude).0 exclude;
      staged = (is_empty-nil hook.stages).0 (ground arith);
    }

validate_complete :
    (compiles : String → Bool) (hook : Hook)
    → IsValid compiles hook
    → validate compiles hook ≡ ok tt
unfolding validate
validate_complete compiles hook v = ground (
  arith,
  ==_iff hook.id "",
  ==_iff hook.entry "",
  (check_regex-ok compiles "files" hook.files).1 v.files_compile,
  (check_regex-ok compiles "exclude" hook.exclude).1 v.exclude_compile,
  (is_empty-nil hook.stages).1 v.staged,
)

-- The function accepts a hook exactly if it has an id, an entry and a stage, and its patterns
-- compile.
pub validate_iff :
    (compiles : String → Bool) (hook : Hook)
    → (validate compiles hook ≡ ok tt) ↔ IsValid compiles hook
validate_iff compiles hook = (validate_sound compiles hook, validate_complete compiles hook)

-- The stage name is read as the stage.
abbrev pub reads : Stage → String → Bool
reads s name = elim (from_str name) [ err _ ↦ false | ok t ↦ t == s ]

contains-read_stages :
    (names : List String) (stages : List Stage) (s : Stage)
    → read_stages names ≡ ok stages
    → contains stages s ≡ any (reads s) names
unfolding read_stages
contains-read_stages [] stages s h = let e : stages ≡ [] = cc in rw e
contains-read_stages (n ∷ ns) stages s h = elim (Result-cases (from_str n)) [
  | inr (x, e) ↦ absurd (ground arith)
  | inl (t, e) ↦
      let (rest, read, same) =
        bind-ok (read_stages ns) (λ rest. ok (t ∷ rest)) {b = stages} (ground arith) in
      let q : stages ≡ t ∷ rest = cc in ground (arith, contains-read_stages ns rest s read)
]

-- A hook that is read from a configuration runs at the stages that the configuration names, and
-- at `pre-commit` alone if it names none.
pub runs_for_stage-from_config :
    (c : HookConfig) (hook : Hook) (s : Stage)
    → from_config c ≡ ok hook
    → runs_for_stage hook s
      ≡ elim c.stages [ none ↦ (pre_commit == s) || false | some names ↦ any (reads s) names ]
unfolding from_config runs_for_stage stages_of build
runs_for_stage-from_config c hook s h =
    let (stages, read, made) = bind-ok (stages_of c) (λ stages. ok (build c stages)) h in
    let q : hook.stages ≡ stages = ground arith in
    elim (Option-cases c.stages) [
      | inl e ↦ ground arith
      | inr (names, e) ↦ rw (q, e) (contains-read_stages names stages s (ground arith))
    ]
