-- ===== src/Negative/Calls.antt =====
-- Calls on the negative cache of src/negative_cache.rs, and the misses that they record.
use snp.Prelude.{
  ◌≡◌, ◌≤◌, refl, true, List, [], ◌∷◌, String, string_eq, ==_refl, length, contains, arith, all,
  subst,
}
use snp.Negative
use snp.Negative.{BloomFilter, NegativeCacheConfig, NegativeCache, insert_key, with_config}

pub data Call : Type 0 where
  probably_absent : (key : String) → Call
  definitely_absent : (key : String) → Call
  record_miss : (key : String) → Call
  reset : Call

-- The misses recorded since the last reset, the latest first.
abbrev pub misses : List Call → List String → List String
misses [] keys = keys
misses (probably_absent key ∷ calls) keys = misses calls keys
misses (definitely_absent key ∷ calls) keys = misses calls keys
misses (record_miss key ∷ calls) keys = misses calls (key ∷ keys)
misses (reset ∷ calls) keys = misses calls []

module _ {Rate : Type 0} (B : BloomFilter Rate) where
  abbrev pub perform : Call → NegativeCache B → NegativeCache B
  perform (probably_absent key) c = (Negative.probably_absent B key c).0
  perform (definitely_absent key) c = (Negative.definitely_absent B key c).0
  perform (record_miss key) c = Negative.record_miss B key c
  perform reset c = Negative.reset B c

  abbrev pub after : List Call → NegativeCache B → NegativeCache B
  after [] c = c
  after (call ∷ calls) c = after calls (perform call c)

  -- The filter answers for all the misses, the confirmed ones are misses, and they are in bounds.
  pub record IsSound (keys : List String) (c : NegativeCache B) : Type 0 where
    pub filtered : all (λ k. (Negative.probably_absent B k c).1) keys ≡ true
    pub confirmed : all (contains keys) c.confirmed_misses ≡ true
    pub bounded : length c.confirmed_misses ≤ c.config.max_confirmed_entries

  all_inserted :
      (key : String) (keys : List String) (f : B.Filter)
      → all (λ k. B.contains k f) keys ≡ true
      → all (λ k. B.contains k (B.insert key f)) keys ≡ true
  all_inserted key [] f h = refl
  all_inserted key (k ∷ keys) f h =
      ground (arith, h, B.contains-insert_old k key f, all_inserted key keys f)

  all_members :
      (key : String) (keys ks : List String)
      → all (contains keys) ks ≡ true
      → all (contains (key ∷ keys)) ks ≡ true
  all_members key keys [] h = refl
  all_members key keys (k ∷ ks) h = ground (arith, h, all_members key keys ks)

  perform-IsSound :
      (call : Call) (keys : List String) (c : NegativeCache B)
      → IsSound keys c
      → IsSound (misses (call ∷ []) keys) (perform call c)
  unfolding Negative.probably_absent Negative.definitely_absent Negative.record_miss Negative.reset
  perform-IsSound (probably_absent key) keys c h = record {
    filtered = h.filtered;
    confirmed = h.confirmed;
    bounded = h.bounded;
  }
  perform-IsSound (definitely_absent key) keys c h = record {
    filtered = h.filtered;
    confirmed = h.confirmed;
    bounded = h.bounded;
  }
  perform-IsSound reset keys c h = record {
    filtered = refl;
    confirmed = refl;
    bounded = omega arith;
  }
  perform-IsSound (record_miss key) keys c h = record {
    filtered = ground (
      arith,
      B.contains-insert key c.bloom_filter,
      all_inserted key keys c.bloom_filter h.filtered,
    );
    confirmed = ground (arith, ==_refl key, all_members key keys c.confirmed_misses h.confirmed);
    bounded = ground (arith, h.bounded);
  }

  misses_step :
      (call : Call) (calls : List Call) (keys : List String)
      → misses calls (misses (call ∷ []) keys) ≡ misses (call ∷ calls) keys
  misses_step (probably_absent key) calls keys = refl
  misses_step (definitely_absent key) calls keys = refl
  misses_step (record_miss key) calls keys = refl
  misses_step reset calls keys = refl

  after-IsSound :
      (calls : List Call) (keys : List String) (c : NegativeCache B)
      → IsSound keys c
      → IsSound (misses calls keys) (after calls c)
  after-IsSound [] keys c h = h
  after-IsSound (call ∷ calls) keys c h =
      subst (λ (ks : List String). IsSound ks (after (call ∷ calls) c))
        (misses_step call calls keys)
        (after-IsSound calls (misses (call ∷ []) keys) (perform call c)
          (perform-IsSound call keys c h))

  -- With a filter that keeps its laws, over any calls on a new negative cache, with the misses
  -- recorded since the last reset: the filter answers that each of them is probably absent, every
  -- confirmed key is one of them, and no more keys are confirmed than `max_confirmed_entries`.
  pub with_config-IsSound :
      (config : NegativeCacheConfig Rate) (calls : List Call)
      → IsSound (misses calls []) (after calls (with_config B config))
  unfolding with_config
  with_config-IsSound config calls =
      after-IsSound calls [] (with_config B config)
        (record { filtered = refl; confirmed = refl; bounded = omega arith })
