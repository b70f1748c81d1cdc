-- ===== src/Execution/Parallel/SetUp.antt =====
-- What the set-up of the environments of a parallel run (src/execution.rs) leaves in its map.
use snp.Prelude.{
  ◌≡◌, refl, ap, ◌∙◌, arith, subst, List, [], ◌∷◌, some, String, string_eq, ◌==◌, ==_iff, ok,
  Bool-cases, inl, inr, ◌⊎◌,
}
use snp.Prelude.Map
use snp.Prelude.Stateful.{and_then-ok}
use snp.Execution.Sequential.{ExecutionConfig}
use snp.Execution.Engine.{Host, Engine}
use snp.Execution.Engine.Environments.{get_or_create_environment}
use snp.Execution.Engine.Single.{environment_config}
use snp.Execution.Parallel.{EnvironmentGroup, Groups, values, setup_from}
use snp.Execution.Parallel.Keyed.{group_environment}

module _ {S Env Dependency Code Failure Fault : Type 0}
    (host : Host S Env Dependency Code Failure Fault) where
  -- An environment that one of the groups asks for.
  abbrev pub Listed : String → List EnvironmentGroup → Type 0
  Listed k [] = ⊥
  Listed k (g ∷ gs) = (group_environment host g ≡ k) ⊎ Listed k gs

  pub get-Listed :
      (k e : String) (g : EnvironmentGroup) (groups : Groups)
      → Map.get k groups ≡ some g
      → group_environment host g ≡ e
      → Listed e (values groups)
  unfolding values Map.get
  get-Listed k e g [] found fits = absurd (cc)
  get-Listed k e g ((j, x) ∷ groups) found fits = elim (Bool-cases (j == k)) [
    | inl here ↦
        let same : x ≡ g = ground arith in
        inl (ap (λ (y : EnvironmentGroup). group_environment host y) same ∙ fits)
    | inr there ↦ inr (get-Listed k e g groups (ground arith) fits)
  ]

  -- What holds of every environment of a map.
  abbrev pub AllSetUp : (String → Env → Type 0) → List (String × Env) → Type 0
  AllSetUp Q environments = (k : String) (x : Env) → Map.get k environments ≡ some x → Q k x

  AllSetUp-insert :
      (Q : String → Env → Type 0) (j : String) (x : Env) (environments : List (String × Env))
      → Q j x
      → AllSetUp Q environments
      → AllSetUp Q (Map.insert j x environments)
  AllSetUp-insert Q j x environments new old k y found = elim (Bool-cases (j == k)) [
    | inl here ↦
        let same : x ≡ y = ground (arith, Map.get-insert j k x environments) in
        let same_key : j ≡ k = (==_iff j k).0 here in
        subst (λ (z : Env). Q k z) same (subst (λ (i : String). Q i x) same_key new)
    | inr there ↦ old k y (ground (arith, Map.get-insert j k x environments))
  ]

  abbrev pub Present : String → List (String × Env) → Type 0
  Present k environments = (x : Env) × (Map.get k environments ≡ some x)

  Present-insert :
      (k j : String) (x : Env) (environments : List (String × Env))
      → (j ≡ k) ⊎ Present k environments
      → Present k (Map.insert j x environments)
  Present-insert k j x environments h = elim (Bool-cases (j == k)) [
    | inl here ↦ (x, ground (arith, Map.get-insert j k x environments))
    | inr there ↦ elim h [
      | inl same ↦ absurd (ground (arith, ==_iff j k))
      | inr (y, found) ↦ (y, ground (arith, Map.get-insert j k x environments))
    ]
  ]

  -- What is asked for is there once all groups are set up.
  pub setup_from-Present :
      (config : ExecutionConfig) (groups : List EnvironmentGroup) (k : String)
      (environments made : List (String × Env)) (engine engine' : Engine S Env Code Failure)
      → setup_from host config groups environments engine ≡ (engine', ok made)
      → Present k environments ⊎ Listed k groups
      → Present k made
  unfolding setup_from
  setup_from-Present config [] k environments made engine engine' h (inl here) =
      let e : environments ≡ made = cc in subst (λ (m : List (String × Env)). Present k m) e here
  setup_from-Present config [] k environments made engine engine' h (inr there) = absurd there
  setup_from-Present config (group ∷ groups) k environments made engine engine' h asked =
      let (x, s, found, h') =
        and_then-ok
          (get_or_create_environment host group.language
            (environment_config config group.dependencies group.repository_path) group.dependencies
            engine)
          _ h in
      let rest =
        λ (now : Present k (Map.insert (group_environment host group) x environments)
            ⊎ Listed k groups).
          setup_from-Present config groups k
            (Map.insert (group_environment host group) x environments) made s engine' h' now in
      elim asked [
        | inl here ↦
            rest (inl (Present-insert k (group_environment host group) x environments (inr here)))
        | inr (inl own) ↦
            rest (inl (Present-insert k (group_environment host group) x environments (inl own)))
        | inr (inr later) ↦ rest (inr later)
      ]

  abbrev pub IsAmong : EnvironmentGroup → List EnvironmentGroup → Type 0
  IsAmong g [] = ⊥
  IsAmong g (x ∷ xs) = (x ≡ g) ⊎ IsAmong g xs

  -- The environment that was got for one of the groups, with this key.
  abbrev pub IsGot : ExecutionConfig → List EnvironmentGroup → String → Env → Type 0
  IsGot config groups k x =
      (g : EnvironmentGroup) × IsAmong g groups
      × (group_environment host g ≡ k)
      × (from : Engine S Env Code Failure) × (to : Engine S Env Code Failure)
      × (get_or_create_environment host g.language
            (environment_config config g.dependencies g.repository_path) g.dependencies from
          ≡ (to, ok x))

  IsGot-later :
      (config : ExecutionConfig) (g : EnvironmentGroup) (groups : List EnvironmentGroup)
      (k : String) (x : Env)
      → IsGot config groups k x
      → IsGot config (g ∷ groups) k x
  IsGot-later config g groups k x (h, among, same, from, to, got) =
      (h, inr among, same, from, to, got)

  -- Each environment of the set-up was got for a group with its key.
  pub setup_from-IsGot :
      (config : ExecutionConfig) (groups : List EnvironmentGroup) (Q : String → Env → Type 0)
      (environments made : List (String × Env)) (engine engine' : Engine S Env Code Failure)
      → ((k : String) (x : Env) → IsGot config groups k x → Q k x)
      → AllSetUp Q environments
      → setup_from host config groups environments engine ≡ (engine', ok made)
      → AllSetUp Q made
  unfolding setup_from
  setup_from-IsGot config [] Q environments made engine engine' got old h =
      let e : environments ≡ made = cc in subst (λ (m : List (String × Env)). AllSetUp Q m) e old
  setup_from-IsGot config (group ∷ groups) Q environments made engine engine' got old h =
      let (x, s, found, h') =
        and_then-ok
          (get_or_create_environment host group.language
            (environment_config config group.dependencies group.repository_path) group.dependencies
            engine)
          _ h in
      let key = group_environment host group in
      setup_from-IsGot config groups Q (Map.insert key x environments) made s engine'
        (λ k y g. got k y (IsGot-later config group groups k y g))
        (AllSetUp-insert Q key x environments (got key x (group, inl refl, refl, engine, s, found))
          old)
        h'
