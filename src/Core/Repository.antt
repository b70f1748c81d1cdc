-- ===== src/Core/Repository.antt =====
-- `Repository` of src/core.rs. Whether a path exists is asked of the file system, a parameter.
use text.Mathlib.Text.{find?}
use snp.Prelude.{
  Bool, true, false, not, ◌&&◌, Option, none, some, String, if◌then◌else◌, Result, ok, err, ◌==◌,
  string_eq,
}
use snp.Core.Stage.{ConfigError, invalid_value, missing_field, not_found}

pub data Repository : Type 0 where
  remote : (url : String) (rev : Option String) → Repository
  local : (path : String) → Repository
  meta : Repository

unfoldable pub is_remote : Repository → Bool
is_remote (remote url rev) = true
is_remote r = false

unfoldable pub is_local : Repository → Bool
is_local (local path) = true
is_local r = false

unfoldable pub is_meta : Repository → Bool
is_meta meta = true
is_meta r = false

unfoldable pub identifier : Repository → String
identifier (remote url rev) = url
identifier (local path) = path
identifier meta = "meta"

-- `s.contains(t)`.
abbrev pub has : String → String → Bool
has s t = elim (find? s t) [ none ↦ false | some i ↦ true ]

unfoldable pub validate : (String → Bool) → Repository → Result ConfigError (Unit {0})
validate exists (remote url rev) =
    if url == ""
    then err (missing_field "repo")
    else if not (has url "://") && not (has url "@")
    then err (invalid_value "repo" url)
    else ok tt
validate exists (local path) = if not (exists path) then err (not_found path) else ok tt
validate exists meta = ok tt
