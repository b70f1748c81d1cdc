-- ===== src/Recovery/History.antt =====
-- `RecoveryHistory` of src/recovery.rs.
use snp.Prelude.{
  ℕ, ◌≡◌, ◌≤◌, refl, Bool, not, ◌&&◌, List, [], ◌∷◌, ◌++◌, String, ◌==◌, string_eq, if◌then◌else◌,
  any, length, length-append, retain, ltb, leb, arith, if_ind,
}

pub record RecoveryHistoryEntry : Type 0 where
  pub operation_id : String
  pub timestamp : ℕ
  pub success : Bool
  pub strategy : String

pub record RecoveryHistory : Type 0 where
  pub entries : List RecoveryHistoryEntry
  pub max_entries : ℕ

-- `Vec::remove(0)`.
abbrev tail : List RecoveryHistoryEntry → List RecoveryHistoryEntry
tail [] = []
tail (e ∷ es) = es

unfoldable pub new : ℕ → RecoveryHistory
new max_entries = record { entries = []; max_entries = max_entries }

unfoldable pub add_entry : ℕ → String → Bool → String → RecoveryHistory → RecoveryHistory
add_entry now operation_id success strategy h =
    let entry : RecoveryHistoryEntry = record {
      operation_id = operation_id;
      timestamp = now;
      success = success;
      strategy = strategy;
    } in
    let entries = h.entries ++ entry ∷ [] in
    record h { entries = if ltb h.max_entries (length entries) then tail entries else entries }

unfoldable pub clear_old_entries : ℕ → RecoveryHistory → RecoveryHistory
clear_old_entries older_than h = record h {
  entries = retain (λ e. leb older_than e.timestamp) h.entries;
}

unfoldable pub get_recent_failures : String → ℕ → RecoveryHistory → ℕ
get_recent_failures strategy since h =
    length
      (retain (λ e. e.strategy == strategy && (leb since e.timestamp && not e.success)) h.entries)

unfoldable pub get_entries_for_operation : String → RecoveryHistory → List RecoveryHistoryEntry
get_entries_for_operation operation_id h = retain (λ e. e.operation_id == operation_id) h.entries

unfoldable pub has_recent_attempts : String → ℕ → RecoveryHistory → Bool
has_recent_attempts operation_id since h =
    any (λ e. e.operation_id == operation_id && leb since e.timestamp) h.entries

-- At most as many entries as the limit.
abbrev pub IsBounded : RecoveryHistory → Type 0
IsBounded h = length h.entries ≤ h.max_entries

length-tail-snoc :
    (es : List RecoveryHistoryEntry) (e : RecoveryHistoryEntry)
    → length (tail (es ++ e ∷ [])) ≡ length es
length-tail-snoc [] e = refl
length-tail-snoc (f ∷ es) e = omega (arith, length-append {0} es (e ∷ []))

pub add_entry-IsBounded :
    (now : ℕ) (id : String) (success : Bool) (strategy : String) (h : RecoveryHistory)
    → IsBounded h
    → IsBounded (add_entry now id success strategy h)
unfolding add_entry
add_entry-IsBounded now id success strategy h b =
    let entry : RecoveryHistoryEntry = record {
      operation_id = id;
      timestamp = now;
      success = success;
      strategy = strategy;
    } in
    if_ind (λ (es : List RecoveryHistoryEntry). length es ≤ h.max_entries)
      (ltb h.max_entries (length (h.entries ++ entry ∷ [])))
      (λ full. omega (arith, length-tail-snoc h.entries entry)) (λ room. ground arith)
