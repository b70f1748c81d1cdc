-- ===== src/Core/Stage/Names.antt =====
-- The names of the stages (src/core.rs).
use snp.Prelude.{
  ◌≡◌, refl, String, ◌==◌, string_eq, ==_iff, Bool-cases, inl, inr, subst, if◌then◌else◌, ◌⊎◌,
  Result, ok, arith, count,
}
use snp.Core.Stage.{
  Stage, ConfigError, as_str, from_str, all_stages, stage_eq, pre_commit, pre_push,
}

-- Every stage is read back from its name.
pub from_str-as_str : (s : Stage) → from_str (as_str s) ≡ ok s
unfolding from_str as_str
from_str-as_str Stage.pre_commit = refl
from_str-as_str _ = refl

abbrev IsNameOf : String → Stage → Type 0
unfolding as_str
IsNameOf t s =
    (t ≡ as_str s) ⊎ ((t ≡ "commit") × (s ≡ pre_commit)) ⊎ ((t ≡ "push") × (s ≡ pre_push))

-- One arm of the `match` of `from_str`.
arm :
    {rest : Result ConfigError Stage} {s : Stage} (x : Stage) (t name : String)
    → (t ≡ name → IsNameOf t x)
    → (rest ≡ ok s → IsNameOf t s)
    → (if t == name then ok x else rest) ≡ ok s
    → IsNameOf t s
arm {rest} {s} x t name here later e = elim (Bool-cases (t == name)) [
  | inl same ↦
      let q : x ≡ s = ground (arith) in subst (IsNameOf t) q (here ((==_iff t name).0 same))
  | inr other ↦ later (ground arith)
]

-- A text that is read as a stage is its name, or one of the two legacy names.
pub from_str-eq-ok :
    (t : String) (s : Stage)
    → from_str t ≡ ok s
    → (t ≡ as_str s) ⊎ ((t ≡ "commit") × (s ≡ pre_commit)) ⊎ ((t ≡ "push") × (s ≡ pre_push))
unfolding from_str as_str
from_str-eq-ok t s h =
    arm _ t "pre-commit" (λ e. inl e)
      (arm _ t "pre-merge-commit" (λ e. inl e)
        (arm _ t "pre-push" (λ e. inl e)
          (arm _ t "prepare-commit-msg" (λ e. inl e)
            (arm _ t "commit-msg" (λ e. inl e)
              (arm _ t "post-commit" (λ e. inl e)
                (arm _ t "post-checkout" (λ e. inl e)
                  (arm _ t "post-merge" (λ e. inl e)
                    (arm _ t "pre-rebase" (λ e. inl e)
                      (arm _ t "post-rewrite" (λ e. inl e)
                        (arm _ t "manual" (λ e. inl e)
                          (arm _ t "merge-commit" (λ e. inl e)
                            (arm _ t "commit" (λ e. inr (inl (e, refl)))
                              (arm _ t "push" (λ e. inr (inr (e, refl)))
                                (λ h. absurd (cc)))))))))))))))
      h

-- The list of all stages holds each once.
pub all_stages_complete : (s : Stage) → count s all_stages ≡ 1
unfolding all_stages
all_stages_complete Stage.pre_commit = refl
all_stages_complete _ = refl
