-- ===== src/Core/Filter.antt =====
-- `FileFilter` of src/filesystem.rs, and the files of a hook (`file_filter` and `filtered_files` of
-- src/core.rs). The regex library, the normal form of a path and the types that are detected for a file
-- are functions of a `Matcher`; sets of types are lists.
pub mod Selected
mod Tests
use snp.Prelude.{
  Bool, true, false, not, ◌&&◌, if◌then◌else◌, List, [], ◌∷◌, ◌++◌, Option, none, some, String,
  string_eq, is_empty, any, contains, Result, ok, err, ◌>>=◌,
}
use snp.Core.Stage.{ConfigError, invalid_regex}
use snp.Core.Hook.{Hook}

pub record FileFilter : Type 0 where
  pub include_pattern_strings : List String
  pub exclude_pattern_strings : List String
  pub file_types : List String
  pub exclude_types : List String

pub data FilterError (F : Type 0) : Type 0 where
  config : ConfigError → FilterError F
  detection : F → FilterError F

pub record Matcher (F : Type 0) : Type 0 where
  pub compile : String → Option (String → Bool)
  pub normalize_path : String → String
  pub detect_file_type : String → Result F (List String)

unfoldable pub new : FileFilter
new = record {
  include_pattern_strings = [];
  exclude_pattern_strings = [];
  file_types = [];
  exclude_types = [];
}

unfoldable pub with_file_types : List String → FileFilter → FileFilter
with_file_types types f = record f { file_types = f.file_types ++ types }

unfoldable pub with_exclude_types : List String → FileFilter → FileFilter
with_exclude_types types f = record f { exclude_types = f.exclude_types ++ types }

-- `HashSet::is_disjoint`.
abbrev pub is_disjoint : List String → List String → Bool
is_disjoint xs ys = not (any (λ x. contains ys x) xs)

-- The two tests on the detected types.
unfoldable pub has_types : FileFilter → List String → Bool
has_types f types =
    if not (is_empty f.exclude_types) && not (is_disjoint f.exclude_types types)
    then false
    else if not (is_empty f.file_types) && is_disjoint f.file_types types
    then false
    else true

module _ {F : Type 0} (m : Matcher F) where
  abbrev pub compiled :
      (field pattern : String) → Option (String → Bool) → Result (FilterError F) (String → Bool)
  compiled field pattern none = err (config (invalid_regex field pattern))
  compiled field pattern (some is_match) = ok is_match

  -- `Regex::new` with its error.
  abbrev pub regex : (field pattern : String) → Result (FilterError F) (String → Bool)
  regex field pattern = compiled field pattern (m.compile pattern)

  unfoldable pub validate_patterns : String → List String → Result (FilterError F) (Unit {0})
  validate_patterns field [] = ok tt
  validate_patterns field (pattern ∷ patterns) = do
    is_match ← regex field pattern
    validate_patterns field patterns

  unfoldable pub with_include_patterns :
      List String → FileFilter → Result (FilterError F) FileFilter
  unfolding validate_patterns
  with_include_patterns patterns f = do
    valid ← validate_patterns "include_patterns" patterns
    ok (record f { include_pattern_strings = f.include_pattern_strings ++ patterns })

  unfoldable pub with_exclude_patterns :
      List String → FileFilter → Result (FilterError F) FileFilter
  unfolding validate_patterns
  with_exclude_patterns patterns f = do
    valid ← validate_patterns "exclude_patterns" patterns
    ok (record f { exclude_pattern_strings = f.exclude_pattern_strings ++ patterns })

  -- A loop over patterns that ends at the first match.
  unfoldable pub matches_any :
      (field : String) → List String → (path : String) → Result (FilterError F) Bool
  matches_any field [] path = ok false
  matches_any field (pattern ∷ patterns) path =
      let rest = matches_any field patterns path in
      do is_match ← regex field pattern; if is_match path then ok true else rest

  abbrev pub detected : Result F (List String) → Result (FilterError F) (List String)
  detected (ok types) = ok types
  detected (err e) = err (detection e)

  unfoldable pub matches_types : FileFilter → String → Result (FilterError F) Bool
  unfolding has_types
  matches_types f path =
      if is_empty f.file_types && is_empty f.exclude_types
      then ok true
      else (do types ← detected (m.detect_file_type path); ok (has_types f types))

  -- Without patterns to include every path is included.
  abbrev pub is_included : FileFilter → String → Result (FilterError F) Bool
  is_included f path =
      if is_empty f.include_pattern_strings
      then ok true
      else matches_any "include" f.include_pattern_strings path

  -- The part of `matches` behind the loop over the patterns to exclude.
  abbrev pub unless_excluded : FileFilter → String → Bool → Result (FilterError F) Bool
  unless_excluded f path true = ok false
  unless_excluded f path false = do
    included ← is_included f (m.normalize_path path)
    if included then matches_types f path else ok false

  unfoldable pub matches : FileFilter → String → Result (FilterError F) Bool
  unfolding matches_any matches_types
  matches f path = do
    excluded ← matches_any "exclude" f.exclude_pattern_strings (m.normalize_path path)
    unless_excluded f path excluded

  unfoldable pub filter_files : FileFilter → List String → Result (FilterError F) (List String)
  unfolding matches
  filter_files f [] = ok []
  filter_files f (file ∷ files) = do
    chosen ← matches f file
    filtered ← filter_files f files
    ok (if chosen then file ∷ filtered else filtered)

  abbrev pub add_include : Option String → FileFilter → Result (FilterError F) FileFilter
  add_include none f = ok f
  add_include (some pattern) f = with_include_patterns (pattern ∷ []) f

  abbrev pub add_exclude : Option String → FileFilter → Result (FilterError F) FileFilter
  add_exclude none f = ok f
  add_exclude (some pattern) f = with_exclude_patterns (pattern ∷ []) f

  unfoldable pub file_filter : Hook → Result (FilterError F) FileFilter
  unfolding new with_include_patterns with_exclude_patterns with_file_types with_exclude_types
  file_filter hook = do
    included ← add_include hook.files new
    f ← add_exclude hook.exclude included
    ok (with_exclude_types hook.exclude_types (with_file_types hook.types f))

  -- `ExecutionContext::filtered_files` with the files of the context.
  unfoldable pub filtered_files : Hook → List String → Result (FilterError F) (List String)
  unfolding file_filter filter_files
  filtered_files hook files =
      if hook.always_run then ok files else (do f ← file_filter hook; filter_files f files)
