-- ===== src/Concurrency/Graph/Drain.antt =====
-- The loop of `resolve_execution_order` (src/concurrency.rs): its invariant, and what it leaves.
use snp.Prelude.{
  ℕ, zero, suc, ◌+◌, ◌≡◌, ◌≤◌, ◌<◌, refl, true, false, List, [], ◌∷◌, ◌++◌, String, none, some,
  ◌==◌, ==_iff, ==_refl, string_eq, nat_eq, if◌then◌else◌, contains, count, length, length-append,
  count-append, count_of_contains, length_of_count-le, ok, arith,
}
use snp.Prelude.Map
use mathlib.Core.List.{append-nil, append_assoc}
use snp.Concurrency.Graph.{Adjacency, Degrees, list_at, release, drain}
use snp.Concurrency.Graph.Pending.{pending, edge_count, pending_snoc, pending_zero}

-- Each task stands behind all that it depends on: `seen` is what stands before the list.
abbrev pub IsOrdered : List (String × List String) → List String → List String → Type 0
IsOrdered es seen [] = Unit
IsOrdered es seen (x ∷ xs) =
    ((d : String) → 0 < edge_count es x d → contains seen d ≡ true)
    × IsOrdered es (seen ++ x ∷ []) xs

IsOrdered-snoc :
    (es : List (String × List String)) (seen xs : List String) (c : String)
    → IsOrdered es seen xs
    → ((d : String) → 0 < edge_count es c d → contains (seen ++ xs) d ≡ true)
    → IsOrdered es seen (xs ++ c ∷ [])
IsOrdered-snoc es seen [] c h last = (rw append-nil at last, tt)
IsOrdered-snoc es seen (x ∷ xs) c h last =
    (h.0, IsOrdered-snoc es (seen ++ x ∷ []) xs c h.1 (rw append_assoc last))

-- `ds` are the dependents that the inner loop has still to release.
pub record Inv (es : List (String × List String)) (ks ds queue : List String) (degrees : Degrees)
    (done : List String) : Type 0 where
  pub degree :
      (t : String)
      → Map.get t degrees ≡ (if contains ks t then some (count t ds + pending es t done) else none)
  pub placed :
      (t : String)
      → count t queue + count t done
        ≡ (if contains ks t then (if count t ds + pending es t done == 0 then 1 else 0) else 0)

module _ (es : List (String × List String)) (ks : List String) where
  release-Inv :
      (ds queue : List String) (degrees : Degrees) (done : List String)
      → Inv es ks ds queue degrees done
      → ((t : String) → 0 < count t ds → contains ks t ≡ true)
      → (r : List String × Degrees) × (release ds queue degrees ≡ ok r) × Inv es ks [] r.0 r.1 done
  unfolding release
  release-Inv [] queue degrees done inv known = ((queue, degrees), refl, inv)
  release-Inv (t ∷ ts) queue degrees done inv known =
      let n = count t ts + pending es t done in
      let found : Map.get t degrees ≡ some (suc n) =
        ground (arith, inv.degree t, known t, ==_refl t) in
      rw (found, release)
        (release-Inv ts (if n == 0 then queue ++ t ∷ [] else queue) (Map.insert t n degrees) done
          (record {
            degree = λ u.
                ground (
                  arith,
                  Map.get-insert t u n degrees,
                  ==_iff t u,
                  inv.degree u,
                  known t,
                  ==_refl t,
                );
            placed = λ u. ground (
              arith,
              count-append u queue (t ∷ []),
              ==_iff t u,
              inv.placed u,
              known t,
              ==_refl t,
            );
          })
          (λ u h. known u (ground arith)))

  room :
      (queue done : List String)
      → ((t : String) → count t queue + count t done ≤ count t ks)
      → length queue + length done ≤ length ks
  room queue done h = ground (
    arith,
    length_of_count-le (queue ++ done) ks (λ t. omega (arith, h t, count-append t queue done)) "",
    h "",
    count-append "" queue done,
    length-append queue done,
  )

  absent : (t : String) (xs : List String) → count t xs ≡ 0 → contains xs t ≡ false
  absent t xs h = ground (arith, count_of_contains t xs)

  module _ (adjacency : Adjacency)
      (linked : (t u : String) → count t (list_at u adjacency) ≡ edge_count es t u)
      (known : (t u : String) → 0 < edge_count es t u → contains ks t ≡ true) where
    next-Inv :
        (c : String) (queue : List String) (degrees : Degrees) (done : List String)
        → Inv es ks [] (c ∷ queue) degrees done
        → Inv es ks (list_at c adjacency) queue degrees (done ++ c ∷ [])
    next-Inv c queue degrees done inv =
        let fresh : contains done c ≡ false =
          absent c done (ground (arith, inv.placed c, ==_refl c)) in
        record {
          degree = λ t. ground (arith, inv.degree t, pending_snoc es t c done fresh, linked t c);
          placed = λ t. ground (
            arith,
            inv.placed t,
            pending_snoc es t c done fresh,
            linked t c,
            count-append t done (c ∷ []),
          );
        }

    -- The loop ends with an empty queue, and keeps the order of what it did.
    pub drain-Inv :
        (fuel : ℕ) (queue : List String) (degrees : Degrees) (done : List String)
        → Inv es ks [] queue degrees done
        → IsOrdered es [] done
        → length ks ≤ fuel + length done
        → (r : List String) × (drain fuel adjacency queue degrees done ≡ ok r)
          × ((degrees' : Degrees) × Inv es ks [] [] degrees' r)
          × IsOrdered es [] r
    unfolding drain
    drain-Inv fuel [] degrees done inv ordered enough = (done, refl, (degrees, inv), ordered)
    drain-Inv zero (c ∷ queue) degrees done inv ordered enough = absurd (
        omega (
          arith,
          room (c ∷ queue) done (λ t. ground (arith, inv.placed t, count_of_contains t ks)),
        ))
    drain-Inv (suc fuel) (c ∷ queue) degrees done inv ordered enough =
        let (s, released, inv') =
          release-Inv (list_at c adjacency) queue degrees (done ++ c ∷ [])
            (next-Inv c queue degrees done inv) (λ t h. known t c (rw linked at h)) in
        rw released (
          drain-Inv fuel s.0 s.1 (done ++ c ∷ []) inv'
            (IsOrdered-snoc es [] done c ordered
              (λ d h. pending_zero es c d done (ground (arith, inv.placed c, ==_refl c)) h))
            (omega (arith, length-append done (c ∷ []))))
