-- ===== src/Chaining/Executor/Results.antt =====
-- The results that the phases of src/hook_chaining.rs write down, in the order of the runs.
use snp.Prelude.{
  ◌≡◌, refl, Bool, true, false, not, ◌||◌, ◌&&◌, List, [], ◌∷◌, ◌++◌, Option, none, some, String,
  string_eq, ◌==◌, ==_iff, contains, all, any, arith,
}
use mathlib.Core.List.{append-nil, append_assoc}
use snp.Chaining.{ChainedHook}
use snp.Chaining.Conditions.{HookResult}
use snp.Chaining.Executor.{ChainState, PhaseResult, find_hook, all_deps_ok, after_hook}

-- A successful run of the hook is among the results.
abbrev pub succeeded : List HookResult → String → Bool
succeeded rs d = any (λ r. r.hook_id == d && r.success) rs

abbrev pub dependencies_of : Option ChainedHook → List String
dependencies_of none = []
dependencies_of (some h) = h.dependencies

-- What the chain says that the hook depends on.
abbrev pub deps_of : List ChainedHook → String → List String
deps_of hooks id = dependencies_of (find_hook id hooks)

-- Each result stands behind successful results of all that its hook depends on.
abbrev pub in_order : List ChainedHook → List HookResult → List HookResult → Bool
in_order hooks earlier [] = true
in_order hooks earlier (r ∷ rs) =
    all (succeeded earlier) (deps_of hooks r.hook_id) && in_order hooks (earlier ++ r ∷ []) rs

module _ {A : Type 0} where
  any-snoc : (p : A → Bool) (xs : List A) (x : A) → any p (xs ++ x ∷ []) ≡ (any p xs || p x)
  any-snoc p [] x = ground arith
  any-snoc p (y ∷ xs) x = ground (arith, any-snoc p xs x)

  pub all-snoc : (p : A → Bool) (xs : List A) (x : A) → all p (xs ++ x ∷ []) ≡ (all p xs && p x)
  all-snoc p [] x = ground arith
  all-snoc p (y ∷ xs) x = ground (arith, all-snoc p xs x)

  pub all_mono :
      (p q : A → Bool) (xs : List A)
      → ((x : A) → p x ≡ true → q x ≡ true)
      → all p xs ≡ true
      → all q xs ≡ true
  all_mono p q [] imp h = refl
  all_mono p q (x ∷ xs) imp h = ground (arith, imp x, all_mono p q xs imp)

in_order-snoc :
    (hooks : List ChainedHook) (earlier rs : List HookResult) (r : HookResult)
    → in_order hooks earlier rs ≡ true
    → all (succeeded (earlier ++ rs)) (deps_of hooks r.hook_id) ≡ true
    → in_order hooks earlier (rs ++ r ∷ []) ≡ true
in_order-snoc hooks earlier [] r h last = ground (arith, rw append-nil at last)
in_order-snoc hooks earlier (x ∷ rs) r h last = ground (
  arith,
  h,
  in_order-snoc hooks (earlier ++ x ∷ []) rs r (ground (arith, h))
      (rw (← append_assoc earlier (x ∷ []) rs) at last),
)

-- The locals of `execute_chain` agree with the results.
pub record IsConsistent (hooks : List ChainedHook) (s : ChainState) : Type 0 where
  pub ordered : in_order hooks [] s.result.executed_hooks ≡ true
  pub executed :
      (d : String)
      → contains s.executed_hook_ids d ≡ any (λ r. r.hook_id == d) s.result.executed_hooks
  pub failed :
      (d : String)
      → contains s.failed_hook_ids d
        ≡ any (λ r. r.hook_id == d && not r.success) s.result.executed_hooks
  pub success : s.result.success ≡ all (λ r. r.success) s.result.executed_hooks

-- All that the hook depends on has succeeded.
abbrev pub runnable : List ChainedHook → ChainState → ChainedHook → Bool
runnable hooks s h = all (succeeded s.result.executed_hooks) (deps_of hooks h.hook.id)

succeeded_of_executed :
    (d : String) (rs : List HookResult)
    → any (λ r. r.hook_id == d) rs ≡ true
    → any (λ r. r.hook_id == d && not r.success) rs ≡ false
    → succeeded rs d ≡ true
succeeded_of_executed d [] e f = absurd (cc)
succeeded_of_executed d (r ∷ rs) e f = ground (arith, succeeded_of_executed d rs)

pub all_deps_ok-succeeded :
    (hooks : List ChainedHook) (s : ChainState) (h : ChainedHook)
    → IsConsistent hooks s
    → all_deps_ok s h ≡ true
    → all (succeeded s.result.executed_hooks) h.dependencies ≡ true
all_deps_ok-succeeded hooks s h c = all_mono _ _ h.dependencies (λ d ok_d.
    ground (arith, ok_d, c.executed d, c.failed d, succeeded_of_executed d s.result.executed_hooks))

pub find_hook-id :
    (id : String) (hooks : List ChainedHook) (h : ChainedHook)
    → find_hook id hooks ≡ some h
    → h.hook.id ≡ id
find_hook-id id [] h e = absurd (cc)
find_hook-id id (x ∷ hooks) h e = ground (arith, e, ==_iff x.hook.id id, find_hook-id id hooks h)

pub after_hook-IsConsistent :
    (hooks : List ChainedHook) (h : ChainedHook) (r : HookResult) (s : ChainState) (p : PhaseResult)
    → IsConsistent hooks s
    → runnable hooks s h ≡ true
    → r.hook_id ≡ h.hook.id
    → IsConsistent hooks (after_hook h r (s, p)).0
unfolding after_hook
after_hook-IsConsistent hooks h r s p c can same = record {
  ordered = in_order-snoc hooks [] s.result.executed_hooks r c.ordered (rw same can);
  executed = λ d.
      rw (any-snoc (λ (x : HookResult). x.hook_id == d) s.result.executed_hooks r, same)
        (ground (arith, c.executed d));
  failed = λ d.
      rw
        (
          any-snoc (λ (x : HookResult). x.hook_id == d && not x.success) s.result.executed_hooks r,
          same,
        )
        (ground (arith, c.failed d));
  success =
      rw (all-snoc (λ (x : HookResult). x.success) s.result.executed_hooks r)
        (ground (arith, c.success));
}

pub runnable-after_hook :
    (hooks : List ChainedHook) (h x : ChainedHook) (r : HookResult) (s : ChainState)
    (p : PhaseResult)
    → runnable hooks s x ≡ true
    → runnable hooks (after_hook h r (s, p)).0 x ≡ true
unfolding after_hook
runnable-after_hook hooks h x r s p = all_mono _ _ (deps_of hooks x.hook.id) (λ d was.
    rw (any-snoc (λ (x : HookResult). x.hook_id == d && x.success) s.result.executed_hooks r)
      (ground (arith, was)))
