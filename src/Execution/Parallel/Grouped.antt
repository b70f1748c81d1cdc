-- ===== src/Execution/Parallel/Grouped.antt =====
-- The environment groups of src/execution.rs: every hook stands in one group, and the group's
-- environment is the hook's.
use snp.Prelude.{
  count_if, count_if-append, ℕ, ◌+◌, ◌≡◌, ap, arith, Bool, if◌then◌else◌, List, [], ◌∷◌, ◌++◌,
  Option, none, some, String, string_eq, ◌==◌, ok, Option-cases, Bool-cases, inl, inr,
}
use snp.Prelude.Map
use snp.Prelude.Stateful.{and_then-ok}
use snp.Core.Hook.{Hook}
use snp.Execution.Engine.{Host, Engine}
use snp.Execution.Engine.Single.{language_of, repository_of}
use snp.Execution.Parallel.{
  EnvironmentGroup, Groups, group_key, add_to_group, group_hooks, values, analyze_hook_environments,
}

abbrev pub number_in_groups : (Hook → Bool) → List EnvironmentGroup → ℕ
number_in_groups p [] = 0
number_in_groups p (g ∷ gs) = count_if p g.hooks + number_in_groups p gs

-- A group that is put under a key takes the place of the one that is there.
number-insert :
    (p : Hook → Bool) (k : String) (g : EnvironmentGroup) (groups : Groups)
    → number_in_groups p (values (Map.insert k g groups))
        + (elim (Map.get k groups) [ none ↦ 0 | some old ↦ count_if p old.hooks ])
      ≡ number_in_groups p (values groups) + count_if p g.hooks
unfolding values Map.insert Map.get
number-insert p k g [] = omega arith
number-insert p k g ((j, old) ∷ groups) = elim (Bool-cases (j == k)) [
  | inl same ↦ rw same (omega arith)
  | inr other ↦ rw other (omega (arith, number-insert p k g groups))
]

number-add_to_group :
    (p : Hook → Bool) (hook : Hook) (path : Option String) (groups : Groups)
    → number_in_groups p (values (add_to_group hook path groups))
      ≡ number_in_groups p (values groups) + (if p hook then 1 else 0)
unfolding add_to_group
number-add_to_group p hook path groups =
    let key = group_key hook path in
    elim (Option-cases (Map.get key groups)) [
      | inl new ↦ ground (
        arith,
        number-insert p key
            (record {
              language = language_of hook;
              dependencies = hook.additional_dependencies;
              repository_path = path;
              hooks = hook ∷ [];
            })
            groups,
      )
      | inr (g, old) ↦ ground (
        arith,
        number-insert p key (record g { hooks = g.hooks ++ hook ∷ [] }) groups,
        count_if-append {0} p g.hooks (hook ∷ []),
      )
    ]

module _ {S Env Dependency Code Failure Fault : Type 0}
    (host : Host S Env Dependency Code Failure Fault) where
  number-group_hooks :
      (p : Hook → Bool) (hooks : List Hook) (groups made : Groups)
      (engine engine' : Engine S Env Code Failure)
      → group_hooks host hooks groups engine ≡ (engine', ok made)
      → number_in_groups p (values made) ≡ number_in_groups p (values groups) + count_if p hooks
  unfolding group_hooks
  number-group_hooks p [] groups made engine engine' h =
      let e : groups ≡ made = cc in
      omega (arith, ap (λ (gs : Groups). number_in_groups p (values gs)) e)
  number-group_hooks p (hook ∷ hooks) groups made engine engine' h =
      let (path, s, found, h') = and_then-ok (repository_of host hook engine) _ h in
      omega (
        arith,
        number-add_to_group p hook path groups,
        number-group_hooks p hooks (add_to_group hook path groups) made s engine' h',
      )

  -- The groups hold the hooks that were given, each as often as it was given: for every test, as
  -- many hooks pass it in the groups as in the list.
  pub analyze_hook_environments-number :
      (p : Hook → Bool) (hooks : List Hook) (groups : List EnvironmentGroup)
      (engine engine' : Engine S Env Code Failure)
      → analyze_hook_environments host hooks engine ≡ (engine', ok groups)
      → number_in_groups p groups ≡ count_if p hooks
  unfolding analyze_hook_environments values
  analyze_hook_environments-number p hooks groups engine engine' h =
      let (made, s, found, h') = and_then-ok (group_hooks host hooks [] engine) _ h in
      let e : values made ≡ groups = cc in
      omega (
        arith,
        ap (λ (gs : List EnvironmentGroup). number_in_groups p gs) e,
        number-group_hooks p hooks [] made engine s found,
      )
