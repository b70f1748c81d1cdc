-- ===== src/Prelude/Map.antt =====
-- `std::collections::HashMap` as an association list. Its order stands for the iteration order,
-- which the language leaves open: what is proved of every list holds in every order.
use Prim.Native.Nat.{suc, ◌≤◌}
use mathlib.Core.Path.{◌≡◌, refl}
use mathlib.Core.Logic.{inl, inr}
use mathlib.Core.Bool.{Bool, true, false}
use mathlib.Core.List.{List, [], ◌∷◌, map}
use mathlib.Core.Option.{Option, none, some}
use native.Mathlib.Omega.{arith}
use snp.Prelude.Tests.{PartialEq, ◌==◌, if◌then◌else◌, Bool-cases}
use snp.Prelude.Lists.{count, contains, count_of_absent}

module _ {ℓ κ} {K : Type ℓ} {V : Type κ} where
  abbrev pub keys : List (K × V) → List K
  keys m = map (λ p. p.0) m

module _ {ℓ κ} {K : Type ℓ} {V : Type κ} ⦃e : PartialEq K⦄ where
  unfoldable pub get : K → List (K × V) → Option V
  get k [] = none
  get k ((j, v) ∷ m) = if j == k then some v else get k m

  unfoldable pub insert : K → V → List (K × V) → List (K × V)
  insert k v [] = (k, v) ∷ []
  insert k v ((j, w) ∷ m) = if j == k then (k, v) ∷ m else (j, w) ∷ insert k v m

  unfoldable pub remove : K → List (K × V) → List (K × V)
  remove k [] = []
  remove k ((j, w) ∷ m) = if j == k then remove k m else (j, w) ∷ remove k m

  abbrev pub contains_key : K → List (K × V) → Bool
  contains_key k m = contains (keys m) k

  pub get-insert :
      (k j : K) (v : V) (m : List (K × V))
      → get j (insert k v m) ≡ (if k == j then some v else get j m)
  unfolding get insert
  get-insert k j v [] = refl
  get-insert k j v ((i, w) ∷ m) =
      ground (arith, e.same_iff k j, e.same_iff i k, e.same_iff i j, get-insert k j v m)

  pub get-remove :
      (k j : K) (m : List (K × V)) → get j (remove k m) ≡ (if k == j then none else get j m)
  unfolding get remove
  get-remove k j [] = ground arith
  get-remove k j ((i, w) ∷ m) =
      ground (arith, e.same_iff k j, e.same_iff i k, e.same_iff i j, get-remove k j m)

  pub get_of_absent : (k : K) (m : List (K × V)) → contains_key k m ≡ false → get k m ≡ none
  unfolding get
  get_of_absent k [] h = refl
  get_of_absent k ((j, v) ∷ m) h = ground (arith, get_of_absent k m)

  pub get_of_key :
      (k : K) (m : List (K × V)) → contains_key k m ≡ true → (v : V) × (get k m ≡ some v)
  unfolding get
  get_of_key k [] h = ground arith
  get_of_key k ((j, v) ∷ m) h = elim (Bool-cases (j == k)) [
    | inl same ↦ (v, rw same)
    | inr other ↦ rw other (get_of_key k m (rw other at h))
  ]

  -- A key stands once: what every operation of a map keeps.
  abbrev pub IsMap : List (K × V) → Type ℓ
  IsMap m = (k : K) → count k (keys m) ≤ 1

  pub count-keys-insert :
      (k j : K) (v : V) (m : List (K × V))
      → count j (keys (insert k v m)) ≡ (
          if contains_key k m
          then count j (keys m)
          else (if k == j then suc (count j (keys m)) else count j (keys m)))
  unfolding insert
  count-keys-insert k j v [] = ground arith
  count-keys-insert k j v ((i, w) ∷ m) =
      ground (arith, e.same_iff k j, e.same_iff i k, e.same_iff i j, count-keys-insert k j v m)

  count-keys-remove_le :
      (k j : K) (m : List (K × V)) → count j (keys (remove k m)) ≤ count j (keys m)
  unfolding remove
  count-keys-remove_le k j [] = omega arith
  count-keys-remove_le k j ((i, w) ∷ m) = ground (arith, count-keys-remove_le k j m)

  pub insert-IsMap : (k : K) (v : V) (m : List (K × V)) → IsMap m → IsMap (insert k v m)
  insert-IsMap k v m d j =
      ground (arith, count-keys-insert k j v m, d j, e.same_iff k j, count_of_absent k (keys m))

  pub remove-IsMap : (k : K) (m : List (K × V)) → IsMap m → IsMap (remove k m)
  remove-IsMap k m d j = omega (arith, d j, count-keys-remove_le k j m)
