-- ===== src/Core/Filter/Selected.antt =====
-- Which files a hook is given (src/core.rs and src/filesystem.rs), said without loops and errors.
use snp.Prelude.{
  ◌≡◌, refl, arith, Bool, true, false, not, ◌&&◌, ◌||◌, if◌then◌else◌, List, [], ◌∷◌, Option, none,
  some, String, string_eq, is_empty, any, contains, retain, Result, ok, err,
}
use snp.Core.Hook.{Hook}
use snp.Core.Filter
use snp.Core.Filter.{
  FileFilter, FilterError, Matcher, is_disjoint, has_types, compiled, regex, validate_patterns,
  matches_any, detected, matches_types, is_included, matches, filter_files, add_include,
  add_exclude, with_include_patterns, with_exclude_patterns, with_file_types, with_exclude_types,
  file_filter, filtered_files,
}

module _ {F : Type 0} (m : Matcher F) where
  -- Whether a pattern that is given matches a path.
  abbrev pub is_match : Option (String → Bool) → String → Bool
  is_match none path = false
  is_match (some f) path = f path

  abbrev pub matched : Bool → Option String → String → Bool
  matched default none path = default
  matched default (some pattern) path = is_match (m.compile pattern) path

  abbrev pub types_of : Result F (List String) → List String
  types_of (ok types) = types
  types_of (err e) = []

  abbrev pub shares : List String → List String → Bool
  shares xs types = any (λ x. contains types x) xs

  -- A file is selected if the pattern of the files matches it, the pattern to exclude does not, it has
  -- one of the types, where there are any, and none of the types to exclude.
  unfoldable pub selects : Hook → String → Bool
  selects hook path =
      let normal = m.normalize_path path in
      let types = types_of (m.detect_file_type path) in
      matched true hook.files normal
      && (not (matched false hook.exclude normal)
          && ((is_empty hook.types || shares hook.types types)
              && not (shares hook.exclude_types types)))

  abbrev pub Compiles : Option String → Type 0
  Compiles none = Unit {0}
  Compiles (some pattern) = (f : String → Bool) × (m.compile pattern ≡ some f)

  abbrev pub AreDetected : List String → Type 0
  AreDetected [] = Unit {0}
  AreDetected (file ∷ files) =
      ((types : List String) × (m.detect_file_type file ≡ ok types)) × AreDetected files

  -- The filter of a hook, once its patterns are valid.
  abbrev as_list : Option String → List String
  as_list none = []
  as_list (some pattern) = pattern ∷ []

  abbrev filter_of : Hook → FileFilter
  filter_of hook = record {
    include_pattern_strings = as_list hook.files;
    exclude_pattern_strings = as_list hook.exclude;
    file_types = hook.types;
    exclude_types = hook.exclude_types;
  }

  add_include-ok :
      (pattern : Option String)
      → Compiles pattern
      → add_include m pattern Filter.new
        ≡ ok (record Filter.new { include_pattern_strings = as_list pattern })
  unfolding with_include_patterns Filter.new
  add_include-ok none h = refl
  add_include-ok (some pattern) (f, e) = ground (arith, e)

  add_exclude-ok :
      (pattern : Option String) (f : FileFilter)
      → f.exclude_pattern_strings ≡ []
      → Compiles pattern
      → add_exclude m pattern f ≡ ok (record f { exclude_pattern_strings = as_list pattern })
  unfolding with_exclude_patterns
  add_exclude-ok none f e h = ground arith
  add_exclude-ok (some pattern) f e (g, e') = ground (arith, e')

  file_filter-ok :
      (hook : Hook)
      → Compiles hook.files
      → Compiles hook.exclude
      → file_filter m hook ≡ ok (filter_of hook)
  unfolding file_filter
  file_filter-ok hook h h' = ground (
    arith,
    add_include-ok hook.files h,
    add_exclude-ok hook.exclude (record Filter.new { include_pattern_strings = as_list hook.files })
        refl h',
  )

  matches_any-ok :
      (field : String) (pattern : Option String) (path : String)
      → Compiles pattern
      → matches_any m field (as_list pattern) path ≡ ok (matched false pattern path)
  unfolding matches_any
  matches_any-ok field none path h = refl
  matches_any-ok field (some pattern) path (f, e) = ground (arith, e)

  is_included-ok :
      (pattern : Option String) (f : FileFilter) (path : String)
      → f.include_pattern_strings ≡ as_list pattern
      → Compiles pattern
      → is_included m f path ≡ ok (matched true pattern path)
  is_included-ok none f path e h = ground arith
  is_included-ok (some pattern) f path e h =
      ground (arith, matches_any-ok "include" (some pattern) path h)

  matches_types-ok :
      (hook : Hook) (path : String) (types : List String)
      → m.detect_file_type path ≡ ok types
      → matches_types m (filter_of hook) path
        ≡ ok (
            (is_empty hook.types || shares hook.types types)
            && not (shares hook.exclude_types types))
  unfolding matches_types
  matches_types-ok hook path types e = ground (arith, e)

  matches-selects :
      (hook : Hook) (path : String) (types : List String)
      → Compiles hook.files
      → Compiles hook.exclude
      → m.detect_file_type path ≡ ok types
      → matches m (filter_of hook) path ≡ ok (selects hook path)
  unfolding matches selects
  matches-selects hook path types h h' e =
      let normal = m.normalize_path path in
      ground (
        arith,
        matches_any-ok "exclude" hook.exclude normal h',
        is_included-ok hook.files (filter_of hook) normal refl h,
        matches_types-ok hook path types e,
      )

  filter_files-selects :
      (hook : Hook) (files : List String)
      → Compiles hook.files
      → Compiles hook.exclude
      → AreDetected files
      → filter_files m (filter_of hook) files ≡ ok (retain (selects hook) files)
  unfolding filter_files
  filter_files-selects hook [] h h' d = refl
  filter_files-selects hook (file ∷ files) h h' ((types, e), d) =
      ground (arith, matches-selects hook file types h h' e, filter_files-selects hook files h h' d)

  -- A hook whose patterns compile is given the files that it selects, in their order, or all files if
  -- it always runs, as long as the types of the files can be detected.
  pub filtered_files-selects :
      (hook : Hook) (files : List String)
      → Compiles hook.files
      → Compiles hook.exclude
      → AreDetected files
      → filtered_files m hook files
        ≡ ok (if hook.always_run then files else retain (selects hook) files)
  unfolding filtered_files
  filtered_files-selects hook files h h' d =
      ground (arith, file_filter-ok hook h h', filter_files-selects hook files h h' d)
