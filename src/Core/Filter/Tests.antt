-- ===== src/Core/Filter/Tests.antt =====
-- Rust files without their tests, by the filter of src/filesystem.rs.
use snp.Prelude.{
  ◌≡◌, refl, if◌then◌else◌, List, [], ◌∷◌, none, some, String, ◌==◌, string_eq, ok, err,
}
use snp.Core.Stage.{invalid_regex}
use snp.Core.Hook
use snp.Core.Hook.{Hook}
use snp.Core.Filter.{Matcher, config, filtered_files}
use snp.Core.Filter.Selected
use snp.Core.Filter.Selected.{filtered_files-selects}

-- Patterns that match one text, and types by the name.
abbrev matcher : Matcher String
matcher = record {
  compile = λ pattern. if pattern == "[" then none else some (λ path. path == pattern);
  normalize_path = λ path. path;
  detect_file_type = λ path. ok (if path == "a.py" then "python" ∷ [] else "rust" ∷ "text" ∷ []);
}

abbrev lint : Hook
lint = record (Hook.new "lint" "run-lint" "system") { exclude = some "t.rs"; types = "rust" ∷ [] }

abbrev files : List String
files = "a.rs" ∷ "t.rs" ∷ "a.py" ∷ "b.rs" ∷ []

filtered_files-selects_example : filtered_files matcher lint files ≡ ok ("a.rs" ∷ "b.rs" ∷ [])
unfolding Selected.selects Hook.new
filtered_files-selects_example =
    filtered_files-selects matcher lint files tt ((λ path. path == "t.rs"), refl)
      (
        ("rust" ∷ "text" ∷ [], refl),
        (("rust" ∷ "text" ∷ [], refl), (("python" ∷ [], refl), (("rust" ∷ "text" ∷ [], refl), tt))),
      )

invalid_pattern :
    filtered_files matcher (record lint { files = some "[" }) files
    ≡ err (config (invalid_regex "include_patterns" "["))
unfolding filtered_files Hook.new
invalid_pattern = refl
