-- ===== src/Prelude/Lists.antt =====
-- Lists measured by native numbers, and searched by a Boolean equality.
use Prim.Native.Nat.{ℕ, suc, ◌+◌, ◌≤◌, ◌<◌}
use mathlib.Core.Path.{◌≡◌, refl}
use mathlib.Core.Bool.{Bool, true, false, ◌||◌, ◌&&◌}
use mathlib.Core.List.{List, [], ◌∷◌, ◌++◌}
use mathlib.Core.Option.{Option, none, some}
use native.Mathlib.Omega.{arith}
use snp.Prelude.Tests.{PartialEq, ◌==◌, ==_refl, if◌then◌else◌}

module _ {ℓ} {A : Type ℓ} where
  abbrev pub length : List A → ℕ
  length [] = 0
  length (x ∷ xs) = suc (length xs)

  abbrev pub is_empty : List A → Bool
  is_empty [] = true
  is_empty (x ∷ xs) = false

  pub length-append : (xs ys : List A) → length (xs ++ ys) ≡ length xs + length ys
  length-append [] ys = omega arith
  length-append (x ∷ xs) ys = omega (arith, length-append xs ys)

  abbrev pub any : (A → Bool) → List A → Bool
  any p [] = false
  any p (x ∷ xs) = p x || any p xs

  abbrev pub all : (A → Bool) → List A → Bool
  all p [] = true
  all p (x ∷ xs) = p x && all p xs

  -- How many members pass a test.
  abbrev pub count_if : (A → Bool) → List A → ℕ
  count_if p [] = 0
  count_if p (x ∷ xs) = (if p x then 1 else 0) + count_if p xs

  pub count_if-append :
      (p : A → Bool) (xs ys : List A) → count_if p (xs ++ ys) ≡ count_if p xs + count_if p ys
  count_if-append p [] ys = omega arith
  count_if-append p (x ∷ xs) ys = omega (arith, count_if-append p xs ys)

  -- `Vec::retain`.
  abbrev pub retain : (A → Bool) → List A → List A
  retain p [] = []
  retain p (x ∷ xs) = let rest = retain p xs in if p x then x ∷ rest else rest

  -- `Iterator::find`.
  abbrev pub find : (A → Bool) → List A → Option A
  find p [] = none
  find p (x ∷ xs) = let rest = find p xs in if p x then some x else rest

module _ {ℓ} {A : Type ℓ} ⦃e : PartialEq A⦄ where
  abbrev pub contains : List A → A → Bool
  contains xs a = any (λ x. x == a) xs

  abbrev pub count : A → List A → ℕ
  count a [] = 0
  count a (x ∷ xs) = (if x == a then 1 else 0) + count a xs

  pub count-append : (a : A) (xs ys : List A) → count a (xs ++ ys) ≡ count a xs + count a ys
  count-append a [] ys = omega arith
  count-append a (x ∷ xs) ys = omega (arith, count-append a xs ys)

  pub contains-append :
      (xs ys : List A) (a : A) → contains (xs ++ ys) a ≡ (contains xs a || contains ys a)
  contains-append [] ys a = refl
  contains-append (x ∷ xs) ys a = ground (arith, contains-append xs ys a)

  pub count_of_contains : (a : A) (xs : List A) → contains xs a ≡ true → 0 < count a xs
  count_of_contains a [] h = ground arith
  count_of_contains a (x ∷ xs) h = ground (arith, count_of_contains a xs)

  pub count_of_absent : (a : A) (xs : List A) → contains xs a ≡ false → count a xs ≡ 0
  count_of_absent a [] h = ground arith
  count_of_absent a (x ∷ xs) h = ground (arith, count_of_absent a xs)

  -- The list without the first occurrence of `a`.
  erase : A → List A → List A
  erase a [] = []
  erase a (x ∷ xs) = let rest = erase a xs in if x == a then xs else x ∷ rest

  count-erase :
      (a t : A) (xs : List A)
      → 0 < count a xs
      → count t (erase a xs) + (if a == t then 1 else 0) ≡ count t xs
  unfolding erase
  count-erase a t [] h = ground arith
  count-erase a t (x ∷ xs) h =
      ground (arith, e.same_iff x a, e.same_iff x t, e.same_iff a t, count-erase a t xs)

  length-erase : (a : A) (xs : List A) → 0 < count a xs → length (erase a xs) + 1 ≡ length xs
  unfolding erase
  length-erase a [] h = ground arith
  length-erase a (x ∷ xs) h = ground (arith, length-erase a xs)

  count-le_length : (a : A) (xs : List A) → count a xs ≤ length xs
  count-le_length a [] = omega arith
  count-le_length a (x ∷ xs) = ground (arith, count-le_length a xs)

  -- A list that holds nothing more often than another is no longer, and shorter by what it lacks.
  pub length_of_count-le :
      (xs ys : List A)
      → ((a : A) → count a xs ≤ count a ys)
      → (t : A) → length xs + count t ys ≤ length ys + count t xs
  length_of_count-le [] ys h t = omega (arith, count-le_length t ys)
  length_of_count-le (x ∷ xs) ys h t =
      let has : 0 < count x ys = ground (arith, h x, ==_refl x) in
      ground (
        arith,
        count-erase x t ys has,
        length-erase x ys has,
        length_of_count-le xs (erase x ys) (λ a. ground (arith, h a, count-erase x a ys has)) t,
      )

  -- Two lists hold the same items, as often.
  abbrev pub SameItems : List A → List A → Type ℓ
  SameItems xs ys = (a : A) → count a xs ≡ count a ys
