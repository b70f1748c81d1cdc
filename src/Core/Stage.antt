-- ===== src/Core/Stage.antt =====
-- `Stage` of src/core.rs.
pub mod Names
use snp.Prelude.{
  ℕ, ◌≡◌, List, [], ◌∷◌, String, ◌==◌, nat_eq, string_eq, if◌then◌else◌, PartialEq, Bool, true,
  Result, ok, err, ◌↔◌, arith,
}

pub data Stage : Type 0 where
  pre_commit pre_merge_commit pre_push prepare_commit_msg commit_msg post_commit : Stage
  post_checkout post_merge pre_rebase post_rewrite manual merge_commit : Stage

-- `ConfigError` as far as this file raises it: the field at fault, and the value.
pub data ConfigError : Type 0 where
  invalid_value : (field value : String) → ConfigError
  missing_field : (field : String) → ConfigError
  invalid_regex : (field pattern : String) → ConfigError
  validation_failed : (id : String) → ConfigError
  not_found : (path : String) → ConfigError

unfoldable pub as_str : Stage → String
as_str pre_commit = "pre-commit"
as_str pre_merge_commit = "pre-merge-commit"
as_str pre_push = "pre-push"
as_str prepare_commit_msg = "prepare-commit-msg"
as_str commit_msg = "commit-msg"
as_str post_commit = "post-commit"
as_str post_checkout = "post-checkout"
as_str post_merge = "post-merge"
as_str pre_rebase = "pre-rebase"
as_str post_rewrite = "post-rewrite"
as_str manual = "manual"
as_str merge_commit = "merge-commit"

unfoldable pub from_str : String → Result ConfigError Stage
from_str s =
    if s == "pre-commit"
    then ok pre_commit
    else if s == "pre-merge-commit"
    then ok pre_merge_commit
    else if s == "pre-push"
    then ok pre_push
    else if s == "prepare-commit-msg"
    then ok prepare_commit_msg
    else if s == "commit-msg"
    then ok commit_msg
    else if s == "post-commit"
    then ok post_commit
    else if s == "post-checkout"
    then ok post_checkout
    else if s == "post-merge"
    then ok post_merge
    else if s == "pre-rebase"
    then ok pre_rebase
    else if s == "post-rewrite"
    then ok post_rewrite
    else if s == "manual"
    then ok manual
    else if s == "merge-commit"
    then ok merge_commit
    else if s == "commit"
    then ok pre_commit
    else if s == "push"
    then ok pre_push
    else err (invalid_value "stage" s)

unfoldable pub all_stages : List Stage
all_stages =
    pre_commit ∷ pre_merge_commit ∷ pre_push ∷ prepare_commit_msg ∷ commit_msg ∷ post_commit
    ∷ post_checkout ∷ post_merge ∷ pre_rebase ∷ post_rewrite ∷ manual ∷ merge_commit ∷ []

-- The derived `PartialEq` compares the variants by their place.
abbrev pub discriminant : Stage → ℕ
discriminant pre_commit = 0
discriminant pre_merge_commit = 1
discriminant pre_push = 2
discriminant prepare_commit_msg = 3
discriminant commit_msg = 4
discriminant post_commit = 5
discriminant post_checkout = 6
discriminant post_merge = 7
discriminant pre_rebase = 8
discriminant post_rewrite = 9
discriminant manual = 10
discriminant merge_commit = 11

pub discriminant_iff : (a b : Stage) → ((discriminant a == discriminant b) ≡ true) ↔ (a ≡ b)
discriminant_iff pre_commit b = ground arith
discriminant_iff _ b = ground arith

instance abbrev pub stage_eq : PartialEq Stage
stage_eq = record { same = λ a b. discriminant a == discriminant b; same_iff = discriminant_iff }
