-- ===== src/Concurrency/Graph/Pending.antt =====
-- Counting the edges of a dependency graph that still hold a task back.
use snp.Prelude.{
  ℕ, ◌+◌, ◌≡◌, ◌<◌, true, false, ◌||◌, List, [], ◌∷◌, ◌++◌, String, ◌==◌, ==_iff, ==_refl,
  string_eq, if◌then◌else◌, contains, count, arith, Bool-cases, inl, inr, ltb,
}

-- How many of the dependencies `ds` are not in `done`.
unfoldable pub blocked : List String → List String → ℕ
blocked done [] = 0
blocked done (d ∷ ds) = (if contains done d then 0 else 1) + blocked done ds

-- How many edges hold the task `t` back, when `done` is done.
unfoldable pub pending : List (String × List String) → String → List String → ℕ
pending [] t done = 0
pending ((k, ds) ∷ es) t done = (if k == t then blocked done ds else 0) + pending es t done

-- How many edges say that `t` depends on `d`.
unfoldable pub edge_count : List (String × List String) → String → String → ℕ
edge_count [] t d = 0
edge_count ((k, ds) ∷ es) t d = (if k == t then count d ds else 0) + edge_count es t d

pub contains_snoc :
    (done : List String) (c d : String)
    → contains (done ++ c ∷ []) d ≡ (contains done d || (c == d))
contains_snoc [] c d = ground arith
contains_snoc (x ∷ xs) c d = ground (arith, contains_snoc xs c d)

blocked_snoc :
    (done : List String) (c : String) (ds : List String)
    → contains done c ≡ false
    → blocked done ds ≡ count c ds + blocked (done ++ c ∷ []) ds
unfolding blocked
blocked_snoc done c [] h = omega arith
blocked_snoc done c (d ∷ ds) h =
    ground (arith, ==_iff c d, ==_iff d c, contains_snoc done c d, blocked_snoc done c ds h)

-- Finishing `c` releases what depends on it, as often as it does.
pub pending_snoc :
    (es : List (String × List String)) (t c : String) (done : List String)
    → contains done c ≡ false
    → pending es t done ≡ edge_count es t c + pending es t (done ++ c ∷ [])
unfolding pending edge_count
pending_snoc [] t c done h = omega arith
pending_snoc ((k, ds) ∷ es) t c done h =
    ground (arith, blocked_snoc done c ds h, pending_snoc es t c done h)

blocked_zero :
    (done : List String) (ds : List String) (d : String)
    → blocked done ds ≡ 0
    → 0 < count d ds
    → contains done d ≡ true
unfolding blocked
blocked_zero done [] d z h = ground arith
blocked_zero done (x ∷ ds) d z h = elim (Bool-cases (x == d)) [
  | inl same ↦ ground (arith, ==_iff x d)
  | inr other ↦ blocked_zero done ds d (ground arith) (ground arith)
]

-- Where nothing holds `t` back, all that it depends on is done.
pub pending_zero :
    (es : List (String × List String)) (t d : String) (done : List String)
    → pending es t done ≡ 0
    → 0 < edge_count es t d
    → contains done d ≡ true
unfolding pending edge_count
pending_zero [] t d done z h = ground arith
pending_zero ((k, ds) ∷ es) t d done z h =
    ground (arith, blocked_zero done ds d, pending_zero es t d done)

blocked_pos :
    (done : List String) (ds : List String)
    → 0 < blocked done ds
    → (d : String) × (0 < count d ds) × (contains done d ≡ false)
unfolding blocked
blocked_pos done [] h = absurd (omega arith)
blocked_pos done (x ∷ ds) h = elim (Bool-cases (contains done x)) [
  | inl in_done ↦ let (d, p, q) = blocked_pos done ds (ground arith) in (d, ground arith, q)
  | inr not_done ↦ (x, ground (arith, ==_refl x), not_done)
]

-- Where something holds `t` back, it depends on a task that is not done.
pub pending_pos :
    (es : List (String × List String)) (t : String) (done : List String)
    → 0 < pending es t done
    → (d : String) × (0 < edge_count es t d) × (contains done d ≡ false)
unfolding pending edge_count
pending_pos [] t done h = absurd (omega arith)
pending_pos ((k, ds) ∷ es) t done h = elim (Bool-cases (k == t)) [
  | inl same ↦ elim (Bool-cases (ltb 0 (blocked done ds))) [
    | inl some_left ↦ let (d, p, q) = blocked_pos done ds (ground arith) in (d, ground arith, q)
    | inr none_left ↦ let (d, p, q) = pending_pos es t done (ground arith) in (d, ground arith, q)
  ]
  | inr other ↦ let (d, p, q) = pending_pos es t done (ground arith) in (d, ground arith, q)
]
