-- ===== src/Execution/Parallel/Keyed.antt =====
-- The groups of src/execution.rs whose key tells the environment of their hooks.
use snp.Prelude.{
  ◌≡◌, refl, sym, ap, ◌∙◌, arith, subst, List, [], ◌∷◌, ◌++◌, Option, some, String, string_eq, ◌==◌,
  ==_iff, ==_refl, ok, Option-cases, Bool-cases, inl, inr,
}
use snp.Prelude.Map
use snp.Prelude.Stateful.{and_then-ok}
use snp.Core.Hook.{Hook}
use snp.Execution.Engine.{Host, Engine}
use snp.Execution.Engine.Environments.{generate_environment_cache_key}
use snp.Execution.Engine.Single.{language_of, repository_of}
use snp.Execution.Parallel.{EnvironmentGroup, Groups, group_key, add_to_group, group_hooks}

-- What holds of every hook of a list.
abbrev pub All : (Hook → Type 0) → List Hook → Type 0
All P [] = Unit {0}
All P (h ∷ hs) = P h × All P hs

module _ {S Env Dependency Code Failure Fault : Type 0}
    (host : Host S Env Dependency Code Failure Fault) where
  abbrev pub hook_environment : Hook → String
  hook_environment h = generate_environment_cache_key host (language_of h) h.additional_dependencies

  abbrev pub group_environment : EnvironmentGroup → String
  group_environment g = generate_environment_cache_key host g.language g.dependencies

  -- Hooks of the class `P` that share a group's key share the environment's key.
  abbrev pub KeysAgree : (Hook → Type 0) → Type 0
  KeysAgree P =
      (h h' : Hook) (p p' : Option String)
      → P h
      → P h'
      → group_key h p ≡ group_key h' p'
      → hook_environment h ≡ hook_environment h'

  module _ (P : Hook → Type 0) (agree : KeysAgree P) where
    -- Each group was made for a hook of the class.
    abbrev pub AreMade : Groups → Type 0
    AreMade groups =
        (k : String) (g : EnvironmentGroup)
        → Map.get k groups ≡ some g
        → (h : Hook) × (p : Option String) × P h
          × (group_key h p ≡ k)
          × (hook_environment h ≡ group_environment g)

    abbrev pub HasGroup : Groups → Hook → Type 0
    HasGroup groups h =
        (k : String) × (g : EnvironmentGroup) × (Map.get k groups ≡ some g)
        × (group_environment g ≡ hook_environment h)

    -- A group under a key is replaced by one of the same environment, or is new.
    insert-AreMade :
        (h : Hook) (p : Option String) (g : EnvironmentGroup) (groups : Groups)
        → P h
        → hook_environment h ≡ group_environment g
        → AreMade groups
        → AreMade (Map.insert (group_key h p) g groups)
    insert-AreMade h p g groups in_class same made k x found =
        elim (Bool-cases (group_key h p == k)) [
          | inl here ↦
              let e : g ≡ x = ground (arith, Map.get-insert (group_key h p) k g groups) in
              (
                h,
                p,
                in_class,
                (==_iff _ k).0 here,
                same ∙ ap (λ (y : EnvironmentGroup). group_environment y) e,
              )
          | inr there ↦ made k x (ground (arith, Map.get-insert (group_key h p) k g groups))
        ]

    -- What had a group has one still.
    insert-HasGroup :
        (h : Hook) (p : Option String) (g : EnvironmentGroup) (groups : Groups) (other : Hook)
        → P h
        → hook_environment h ≡ group_environment g
        → AreMade groups
        → HasGroup groups other
        → HasGroup (Map.insert (group_key h p) g groups) other
    insert-HasGroup h p g groups other in_class same made (k, x, found, fits) =
        elim (Bool-cases (group_key h p == k)) [
          | inl here ↦
              let (h₀, p₀, in_class₀, key₀, same₀) = made k x found in
              let shared : hook_environment h ≡ hook_environment h₀ =
                agree h h₀ p p₀ in_class in_class₀ ((==_iff _ k).0 here ∙ sym key₀) in
              (
                k,
                g,
                ground (arith, Map.get-insert (group_key h p) k g groups),
                sym same ∙ shared ∙ same₀ ∙ fits,
              )
          | inr there ↦ (k, x, ground (arith, Map.get-insert (group_key h p) k g groups), fits)
        ]

    -- The group that a hook is added to, and the rest of the map as it was.
    add_to_group-insert :
        (h : Hook) (p : Option String) (groups : Groups)
        → P h
        → AreMade groups
        → (g : EnvironmentGroup) × (add_to_group h p groups ≡ Map.insert (group_key h p) g groups)
          × (hook_environment h ≡ group_environment g)
    unfolding add_to_group
    add_to_group-insert h p groups in_class made =
        elim (Option-cases (Map.get (group_key h p) groups)) [
          | inl new ↦ (
            record {
              language = language_of h;
              dependencies = h.additional_dependencies;
              repository_path = p;
              hooks = h ∷ [];
            },
            ground arith,
            refl,
          )
          | inr (g, old) ↦
              let (h₀, p₀, in_class₀, key₀, same₀) = made (group_key h p) g old in
              (
                record g { hooks = g.hooks ++ h ∷ [] },
                ground arith,
                agree h h₀ p p₀ in_class in_class₀ (sym key₀) ∙ same₀,
              )
        ]

    pub group_hooks-HasGroup :
        (hooks : List Hook) (groups made : Groups) (engine engine' : Engine S Env Code Failure)
        → All P hooks
        → AreMade groups
        → group_hooks host hooks groups engine ≡ (engine', ok made)
        → ((h : Hook) → HasGroup groups h → HasGroup made h) × All (HasGroup made) hooks
    unfolding group_hooks
    group_hooks-HasGroup [] groups made engine engine' in_class are_made h =
        let e : groups ≡ made = cc in
        ((λ other has. subst (λ (m : Groups). HasGroup m other) e has), tt)
    group_hooks-HasGroup (hook ∷ hooks) groups made engine engine' in_class are_made h =
        let (p, s, found, h') = and_then-ok (repository_of host hook engine) _ h in
        let (g, e, same) = add_to_group-insert hook p groups in_class.0 are_made in
        let m = Map.insert (group_key hook p) g groups in
        let h'' : group_hooks host hooks m s ≡ (engine', ok made) =
          subst (λ (x : Groups). group_hooks host hooks x s ≡ (engine', ok made)) e h' in
        let (kept, rest) =
          group_hooks-HasGroup hooks m made s engine' in_class.1
            (insert-AreMade hook p g groups in_class.0 same are_made) h'' in
        let own : HasGroup m hook = (
          group_key hook p,
          g,
          ground (
            arith,
            Map.get-insert (group_key hook p) (group_key hook p) g groups,
            ==_refl (group_key hook p),
          ),
          sym same,
        ) in
        (
          λ other has.
              kept other (insert-HasGroup hook p g groups other in_class.0 same are_made has),
          (kept hook own, rest),
        )
