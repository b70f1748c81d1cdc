-- ===== src/Chaining/Resolver/Dependents.antt =====
-- The dependents that `build_graph` of src/hook_chaining.rs writes down, against the dependencies.
use snp.Prelude.{
  ◌≡◌, ◌≤◌, refl, sym, ◌∙◌, ap, Bool, true, false, ◌||◌, ◌&&◌, List, [], ◌∷◌, map, Option, some,
  String, string_eq, ◌==◌, ==_iff, ==_refl, if◌then◌else◌, contains, contains-append, count, arith,
  if_ind, subst,
}
use snp.Prelude.Map
use snp.Chaining.{ChainedHook}
use snp.Chaining.Resolver.{
  HookNode, Nodes, DependencyEdge, node_of, add_nodes, modify, add_dependent, add_edges,
  add_all_edges,
}
use snp.Chaining.Resolver.Levels.{
  node_dependencies, deps_at, node_dependents, dependents_at, modify-deps_at,
}

abbrev pub hook_ids : List ChainedHook → List String
hook_ids hooks = map (λ h. h.hook.id) hooks

-- A dependent of a hook depends on it.
abbrev pub IsBacked : Nodes → Type 0
IsBacked nodes =
    (i x : String) → contains (dependents_at i nodes) x ≡ true → contains (deps_at x nodes) i ≡ true

-- The nodes depend on what the hooks say.
abbrev AsDeclared : List ChainedHook → Nodes → Type 0
AsDeclared [] nodes = Unit
AsDeclared (h ∷ hs) nodes = (deps_at h.hook.id nodes ≡ h.dependencies) × AsDeclared hs nodes

get-add_nodes :
    (hs : List ChainedHook) (nodes : Nodes) (id : String)
    → count id (hook_ids hs) ≡ 0
    → Map.get id (add_nodes hs nodes) ≡ Map.get id nodes
unfolding add_nodes
get-add_nodes [] nodes id h = refl
get-add_nodes (x ∷ hs) nodes id h =
    get-add_nodes hs _ id (ground (arith, h))
    ∙ (Map.get-insert x.hook.id id (node_of x) nodes ∙ ground (arith, h))

if_then : {A : Type 0} (b : Bool) (x y : A) → b ≡ true → (if b then x else y) ≡ x
if_then true x y h = refl
if_then false x y h = absurd (cc)

add_nodes-AsDeclared :
    (hs : List ChainedHook) (nodes : Nodes)
    → ((id : String) → count id (hook_ids hs) ≤ 1)
    → AsDeclared hs (add_nodes hs nodes)
unfolding add_nodes
add_nodes-AsDeclared [] nodes distinct = tt
add_nodes-AsDeclared (x ∷ hs) nodes distinct = (
  ap node_dependencies (
      get-add_nodes hs _ x.hook.id (ground (arith, distinct x.hook.id, ==_refl x.hook.id))
      ∙ (Map.get-insert x.hook.id x.hook.id (node_of x) nodes
          ∙ if_then (x.hook.id == x.hook.id) (some (node_of x)) _ (==_refl x.hook.id))),
  add_nodes-AsDeclared hs _ (λ id. omega (arith, distinct id)),
)

abbrev NoDependents : Nodes → Type 0
NoDependents nodes = (id : String) → dependents_at id nodes ≡ []

add_nodes-NoDependents :
    (hs : List ChainedHook) (nodes : Nodes) → NoDependents nodes → NoDependents (add_nodes hs nodes)
unfolding add_nodes
add_nodes-NoDependents [] nodes h = h
add_nodes-NoDependents (x ∷ hs) nodes h = add_nodes-NoDependents hs _ (λ id.
    ap node_dependents (Map.get-insert x.hook.id id (node_of x) nodes)
    ∙ if_ind (λ (o : Option HookNode). node_dependents o ≡ []) (x.hook.id == id) (λ _. refl)
        (λ _. h id))

dependents-modify :
    (d id i x : String) (nodes : Nodes)
    → contains (dependents_at i (modify d (add_dependent id) nodes)) x ≡ true
    → (contains (dependents_at i nodes) x || (d == i && id == x)) ≡ true
unfolding modify Map.get
dependents-modify d id i x [] h = absurd (cc)
dependents-modify d id i x ((k, n) ∷ nodes) h = ground (
  arith,
  h,
  ==_iff k d,
  ==_iff k i,
  ==_iff d i,
  contains-append n.dependents (id ∷ []) x,
  dependents-modify d id i x nodes,
)

modify-IsBacked :
    (d id : String) (nodes : Nodes)
    → contains (deps_at id nodes) d ≡ true
    → IsBacked nodes
    → IsBacked (modify d (add_dependent id) nodes)
modify-IsBacked d id nodes dep back i x h =
    rw (modify-deps_at (add_dependent id) x d nodes (λ n. refl))
      (ground (arith, dependents-modify d id i x nodes h, back i x, dep, ==_iff d i, ==_iff id x))

-- Nodes that keep the dependencies of others.
abbrev Keeps : Nodes → Nodes → Type 0
Keeps nodes start = (j : String) → deps_at j nodes ≡ deps_at j start

add_edges-IsBacked :
    (id : String) (ds : List String) (nodes : Nodes) (edges : List DependencyEdge)
    → ((d : String) → contains ds d ≡ true → contains (deps_at id nodes) d ≡ true)
    → IsBacked nodes
    → IsBacked (add_edges id ds nodes edges).0 × Keeps (add_edges id ds nodes edges).0 nodes
unfolding add_edges
add_edges-IsBacked id [] nodes edges dep back = (back, λ j. refl)
add_edges-IsBacked id (d ∷ ds) nodes edges dep back =
    let step : let nodes' : Nodes =
          if Map.contains_key d nodes then modify d (add_dependent id) nodes else nodes in
        IsBacked nodes' × Keeps nodes' nodes =
      if_ind (λ (t : Nodes). IsBacked t × Keeps t nodes) (Map.contains_key d nodes)
        (λ _. (
          modify-IsBacked d id nodes (dep d (ground (arith, ==_refl d))) back,
          λ j. modify-deps_at (add_dependent id) j d nodes (λ n. refl),
        ))
        (λ _. (back, λ j. refl)) in
    let rest =
      add_edges-IsBacked id ds _ _ (λ e m. rw (step.1 id) (dep e (ground (arith, m)))) step.0 in
    (rest.0, λ j. rest.1 j ∙ step.1 j)

AsDeclared-Keeps :
    (hs : List ChainedHook) (nodes start : Nodes)
    → Keeps nodes start
    → AsDeclared hs start
    → AsDeclared hs nodes
AsDeclared-Keeps [] nodes start keeps h = tt
AsDeclared-Keeps (x ∷ hs) nodes start keeps h =
    (keeps x.hook.id ∙ h.0, AsDeclared-Keeps hs nodes start keeps h.1)

add_all_edges-IsBacked :
    (hs : List ChainedHook) (nodes : Nodes) (edges : List DependencyEdge)
    → AsDeclared hs nodes
    → IsBacked nodes
    → IsBacked (add_all_edges hs nodes edges).0
unfolding add_all_edges
add_all_edges-IsBacked [] nodes edges declared back = back
add_all_edges-IsBacked (x ∷ hs) nodes edges declared back =
    let step =
      add_edges-IsBacked x.hook.id x.dependencies nodes edges
        (λ d m. subst (λ (ds : List String). contains ds d ≡ true) (sym declared.0) m) back in
    add_all_edges-IsBacked hs _ _ (AsDeclared-Keeps hs _ nodes step.1 declared.1) step.0

nothing-NoDependents : NoDependents []
unfolding Map.get
nothing-NoDependents id = refl

no_member : (x : String) (xs : List String) {b : Bool} → xs ≡ [] → contains xs x ≡ true → b ≡ true
no_member x xs e h = absurd (cc (subst (λ (zs : List String). contains zs x ≡ true) e h))

pub added-IsBacked :
    (hooks : List ChainedHook)
    → ((id : String) → count id (hook_ids hooks) ≤ 1)
    → IsBacked (add_all_edges hooks (add_nodes hooks []) []).0
added-IsBacked hooks distinct =
    add_all_edges-IsBacked hooks (add_nodes hooks []) [] (add_nodes-AsDeclared hooks [] distinct)
      (λ i x h. no_member x _ (add_nodes-NoDependents hooks [] nothing-NoDependents i) h)
