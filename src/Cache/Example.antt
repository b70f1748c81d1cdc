-- ===== src/Cache/Example.antt =====
-- An association list as a map of src/cache.rs, for the tests.
use snp.Prelude.{refl, arith, List, [], PartialEq, length}
use snp.Prelude.Map
use snp.Cache.Stores.{DashMap}

module _ {K : Type 0} ⦃e : PartialEq K⦄ (E : Type 0) where
  abbrev pub list_store : DashMap K E
  list_store = record {
    Store = (m : List (K × E)) × Map.IsMap m;
    new = ([], λ k. omega arith);
    get = λ k m. Map.get k m.0;
    insert = λ k x m. (Map.insert k x m.0, Map.insert-IsMap k x m.0 m.1);
    remove = λ k m. (Map.remove k m.0, Map.remove-IsMap k m.0 m.1);
    entries = λ m. m.0;
    len = λ m. length m.0;
    get-new = λ k. Map.get_of_absent k [] refl;
    get-insert = λ k j x m. Map.get-insert k j x m.0;
    get-remove = λ k j m. Map.get-remove k j m.0;
    entries-IsMap = λ m. m.1;
    get-entries = λ k m. refl;
    len-entries = λ m. refl;
  }
