-- ===== src/Negative/Tests.antt =====
-- The negative cache of src/negative_cache.rs, on a filter without false positives.
use snp.Prelude.{
  ℕ, ◌≡◌, refl, true, false, List, [], ◌∷◌, String, string_eq, ==_refl, contains, length, arith,
}
use snp.Negative.{BloomFilter, NegativeCacheConfig, with_config}
use snp.Negative
use snp.Negative.Calls.{
  probably_absent, record_miss, reset, Call, after, IsSound, with_config-IsSound,
}

contains_inserted : (k : String) (f : List String) → contains (k ∷ f) k ≡ true
contains_inserted k f = ground (arith, ==_refl k)

contains_older : (k j : String) (f : List String) → contains f k ≡ true → contains (j ∷ f) k ≡ true
contains_older k j f h = ground (arith, h)

abbrev exact : BloomFilter ℕ
exact = record {
  Filter = List String;
  with_rate = λ rate n. [];
  insert = λ k f. k ∷ f;
  contains = λ k f. contains f k;
  num_bits = λ f. length f;
  contains-with_rate = λ k rate n. refl;
  contains-insert = contains_inserted;
  contains-insert_old = contains_older;
}

abbrev config : NegativeCacheConfig ℕ
config = record {
  enabled = true;
  false_positive_rate = 1;
  expected_entries = 100;
  max_confirmed_entries = 1;
  reset_interval = 3_600_000;
  persistence_enabled = false;
}

abbrev calls : List Call
calls = record_miss "a" ∷ reset ∷ record_miss "b" ∷ probably_absent "a" ∷ record_miss "c" ∷ []

confirmed_b : (after exact calls (with_config exact config)).confirmed_misses ≡ "b" ∷ []
unfolding with_config Negative.record_miss Negative.reset Negative.probably_absent
confirmed_b = refl

with_config-IsSound_example :
    IsSound exact ("c" ∷ "b" ∷ []) (after exact calls (with_config exact config))
with_config-IsSound_example = with_config-IsSound exact config calls
