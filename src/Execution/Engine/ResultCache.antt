-- ===== src/Execution/Engine/ResultCache.antt =====
-- The cache of hook results in src/execution.rs: `generate_hook_hash`, `check_cache` and
-- `store_in_cache`.
use Prim.Native.String.{◌++◌ as ◌+text+◌}
use snp.Prelude.{
  ℕ, Bool, ◌&&◌, ltb, if◌then◌else◌, List, [], ◌∷◌, Option, none, some, String, ◌==◌, string_eq,
  length,
}
use snp.Prelude.Map
use snp.Core.Hook.{Hook, unwrap_or}
use snp.Execution.HookResult.{HookExecutionResult}
use snp.Execution.Engine.{Host, Engine, HookKey, HookCacheEntry, elapsed}

-- One hour.
abbrev pub cache_ttl : ℕ
cache_ttl = 3600000

unfoldable pub hook_key : Hook → HookKey
hook_key hook = record {
  id = hook.id;
  entry = hook.entry;
  args = hook.args;
  language = hook.language;
  additional_dependencies = hook.additional_dependencies;
  files = hook.files;
  exclude = hook.exclude;
  types = hook.types;
  exclude_types = hook.exclude_types;
}

-- The key of an entry.
abbrev pub result_key : String → String → String
result_key id files_hash = id +text+ (":" +text+ files_hash)

-- The filter of the eviction.
abbrev pub is_old : {Code Failure : Type 0} → ℕ → HookCacheEntry Code Failure → Bool
is_old now entry = ltb cache_ttl (unwrap_or (elapsed entry.timestamp now) 0)

-- The keys of the entries that pass the test, as `filter` and `map` collect them.
unfoldable pub matching_keys : {V : Type 0} → (V → Bool) → List (String × V) → List String
matching_keys p [] = []
matching_keys p ((k, x) ∷ m) = let rest = matching_keys p m in if p x then k ∷ rest else rest

unfoldable pub remove_all : {V : Type 0} → List String → List (String × V) → List (String × V)
remove_all [] m = m
remove_all (k ∷ ks) m = remove_all ks (Map.remove k m)

-- The eviction after an insertion: a map over the bound loses the entries that pass the test.
unfoldable pub limit : {V : Type 0} → ℕ → (V → Bool) → List (String × V) → List (String × V)
unfolding matching_keys remove_all
limit bound p m = if ltb bound (length m) then remove_all (matching_keys p m) m else m

module _ {S Env Dependency Code Failure Fault : Type 0}
    (host : Host S Env Dependency Code Failure Fault) where
  unfoldable pub generate_hook_hash : Hook → String
  unfolding hook_key
  generate_hook_hash hook = host.hash_hook (hook_key hook)

  -- The test of `check_cache`.
  unfoldable pub is_usable :
      ℕ → (files_hash hook_hash : String) → HookCacheEntry Code Failure → Bool
  unfolding elapsed
  is_usable now files_hash hook_hash entry =
      ltb (unwrap_or (elapsed entry.timestamp now) cache_ttl) cache_ttl
      && (entry.files_hash == files_hash && entry.hook_hash == hook_hash)

  unfoldable pub check_cache :
      Hook → List String → Engine S Env Code Failure → Option (HookExecutionResult Code Failure)
  unfolding is_usable generate_hook_hash
  check_cache hook files engine =
      let files_hash = host.generate_files_hash files engine.world in
      elim (Map.get (result_key hook.id files_hash) engine.hook_cache) [
        | none ↦ none
        | some entry ↦
            if is_usable (host.now engine.world) files_hash (generate_hook_hash hook) entry
            then some entry.result
            else none
      ]

  unfoldable pub store_in_cache :
      Hook
      → List String
      → HookExecutionResult Code Failure
      → Engine S Env Code Failure
      → Engine S Env Code Failure
  unfolding generate_hook_hash limit elapsed
  store_in_cache hook files result engine =
      let files_hash = host.generate_files_hash files engine.world in
      let now = host.now engine.world in
      let entry : HookCacheEntry Code Failure = record {
        result = result;
        files_hash = files_hash;
        hook_hash = generate_hook_hash hook;
        timestamp = now;
      } in
      record engine {
        hook_cache =
            limit 1000 (is_old now)
              (Map.insert (result_key hook.id files_hash) entry engine.hook_cache);
      }
