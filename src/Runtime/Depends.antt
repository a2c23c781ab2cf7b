-- ===== src/Runtime/Depends.antt =====
-- The capability graph of a definition resolves exactly where what capabilities depend on is there,
-- and they do not depend on one another in a circle.
use kernis.Base.{
  ◌≡◌, refl, sym, ◌∙◌, ◌↔◌, Bool, true, false, ◌||◌, none, some, List, [], ◌∷◌, map, arith,
  Bool-cases, Option-cases, inl, inr, ==_iff, ◌==◌, ok, err, fault,
}
use kernis.Core.{TextId, id_ord}
use kernis.BTree.Map
use kernis.BTree.Set
use kernis.Dfs.Path.{IsChain, IsCycle}
use kernis.Capability.Definition
use kernis.Capability.Definition.{CapabilityDefinition}
use kernis.Capability.Resolver
use kernis.Capability.Resolver.{CapabilityGraph, ResolvedCapabilityGraph, resolve, requirements}
use kernis.Capability.Resolver.Spec.{Requires, registered}
use kernis.Capability.Resolver.Editing.{ids, contains-ids}
use kernis.Capability.Resolver.Correct.{ResolveEnsures, resolve-Ensures, IsResolved, resolve_iff}
use kernis.Runtime.Definition.{
  CapabilityRequirement, CapabilityDeclaration, capability_graph, Capabilities, add_dependencies,
  define, graph_of, validate_capability_graph,
}
use kernis.Runtime.Validation.{Decides, Decides-map}
use kernis.Runtime.Keyed.{IsKeyed, tail-IsKeyed, head-IsKeyed}

-- A cycle of a relation is one of any larger relation.
pub IsCycle-map :
    (E F : TextId → TextId → Type 0)
    → ((v d : TextId) → E v d → F v d)
    → (p : List TextId) → IsCycle E p
    → IsCycle F p
IsCycle-map E F f p c = record {
  start = c.start;
  rest = c.rest;
  closes = c.closes;
  chain = chains p c.chain;
}
  where
    chains : (p : List TextId) → IsChain E p → IsChain F p
    chains [] h = tt
    chains (x ∷ []) h = tt
    chains (x ∷ y ∷ p) h = (f x y h.0, chains (y ∷ p) h.1)

-- The capability of the one identity declares a dependency on the other.
abbrev pub depends : Capabilities → TextId → TextId → Bool
depends m c d = elim (Map.get m c) [
  | none ↦ false
  | some declaration ↦ Set.contains (map (λ r. r.capability_id) declaration.dependencies) d
]

abbrev pub Depends : Capabilities → TextId → TextId → Type 0
Depends m c d = depends m c d ≡ true

contains-add_dependencies :
    (rs : List CapabilityRequirement) (definition : CapabilityDefinition) (d : TextId)
    → Set.contains (ids (add_dependencies rs definition).dependencies) d ≡ (
        Set.contains (map (λ r. r.capability_id) rs) d
        || Set.contains (ids definition.dependencies) d)
unfolding add_dependencies Set.contains Definition.add_dependency
contains-add_dependencies [] definition d = refl
contains-add_dependencies (r ∷ rs) definition d = ground (
  arith,
  contains-add_dependencies rs (Definition.add_dependency definition r.capability_id) d,
  contains-ids definition.dependencies r.capability_id d,
  Bool-cases (r.capability_id == d),
  Bool-cases (Set.contains (map (λ q. q.capability_id) rs) d),
)

add_dependencies-id :
    (rs : List CapabilityRequirement) (definition : CapabilityDefinition)
    → (add_dependencies rs definition).id ≡ definition.id
unfolding add_dependencies Definition.add_dependency
add_dependencies-id [] definition = refl
add_dependencies-id (r ∷ rs) definition =
    add_dependencies-id rs (Definition.add_dependency definition r.capability_id)

define-id : (c : CapabilityDeclaration) → (define c).id ≡ c.id
unfolding define Definition.new Definition.with_replay_identity
define-id c = add_dependencies-id c.dependencies _

contains-define :
    (c : CapabilityDeclaration) (d : TextId)
    → Set.contains (ids (define c).dependencies) d
      ≡ Set.contains (map (λ r. r.capability_id) c.dependencies) d
unfolding define Definition.new Definition.with_replay_identity Set.contains
contains-define c d =
    contains-add_dependencies c.dependencies _ d
    ∙ ground (arith, Bool-cases (Set.contains (map (λ r. r.capability_id) c.dependencies) d))

get-graph_of :
    (m : Capabilities) (g : CapabilityGraph) (k : TextId)
    → IsKeyed (λ c. c.id) m
    → Map.get (graph_of (Map.values m) g).definitions k
      ≡ elim (Map.get m k) [ some c ↦ some (define c) | none ↦ Map.get g.definitions k ]
unfolding graph_of Map.get Resolver.insert
get-graph_of [] g k h = refl
get-graph_of ((j, c) ∷ m) g k h =
    let (own, absent) = head-IsKeyed (λ c. c.id) j c m h in
    ground (
      arith,
      get-graph_of m (Resolver.insert g (define c)).1 k (tail-IsKeyed (λ c. c.id) j c m h),
      Map.get-insert g.definitions (define c).id (define c) k,
      define-id c,
      own,
      absent,
      ==_iff j k,
    )

module _ (m : Capabilities) (h : IsKeyed (λ c. c.id) m) where
  abbrev graph : CapabilityGraph
  graph = graph_of (Map.values m) Resolver.default

  registered-graph : (c : TextId) → registered graph c ≡ Map.contains_key m c
  unfolding Map.get
  registered-graph c = ground (arith, get-graph_of m Resolver.default c h)

  requires-graph : (c d : TextId) → Set.contains (requirements graph c) d ≡ depends m c d
  unfolding requirements Map.get Set.contains
  requires-graph c d = elim (Option-cases (Map.get m c)) [
    | inl absent ↦ ground (arith, get-graph_of m Resolver.default c h, absent)
    | inr (declaration, there) ↦
        ground (arith, get-graph_of m Resolver.default c h, there, contains-define declaration d)
  ]

-- What a capability depends on is there, and no chain of dependencies comes back to where it began.
pub record IsSupplyGraph (m : Capabilities) : Type 0 where
  pub closed : (c d : TextId) → Depends m c d → Map.contains_key m d ≡ true
  pub acyclic : (p : List TextId) → ¬ IsCycle (Depends m) p

resolves :
    (m : Capabilities)
    → IsKeyed (λ c. c.id) m
    → IsResolved (graph_of (Map.values m) Resolver.default) ↔ IsSupplyGraph m
resolves m h =
    let g = graph_of (Map.values m) Resolver.default in
    let out = λ (c d : TextId) (r : Requires g c d). sym (requires-graph m h c d) ∙ r in
    let back = λ (c d : TextId) (r : Depends m c d). requires-graph m h c d ∙ r in
    (
      λ resolved.
          let both = (resolve_iff g).0 resolved in
          record {
            closed = λ c d r. sym (registered-graph m h d) ∙ both.0 c d (back c d r);
            acyclic = λ p c. both.1 p (IsCycle-map (Depends m) (Requires g) back p c);
          },
      λ s. (resolve_iff g).1 (
        λ c d r. registered-graph m h d ∙ s.closed c d (out c d r),
        λ p c. s.acyclic p (IsCycle-map (Requires g) (Depends m) out p c),
      ),
    )

pub validate_capability_graph-Decides :
    (m : Capabilities)
    → IsKeyed (λ c. c.id) m
    → Decides (IsSupplyGraph m) (validate_capability_graph m)
unfolding validate_capability_graph
validate_capability_graph-Decides m h =
    let g = graph_of (Map.values m) Resolver.default in
    let (out, back) = resolves m h in
    Decides-map (IsResolved g) (IsSupplyGraph m) _ out back (go g _ refl (resolve-Ensures g))
  where
    go :
        (g : CapabilityGraph) (r : Resolver.Fallible ResolvedCapabilityGraph)
        → resolve g ≡ r
        → ResolveEnsures g r
        → Decides
            (IsResolved g)
            (elim r [ ok _ ↦ ok tt | err e ↦ err (capability_graph e) | fault f ↦ fault f ])
    go g (ok r) e h = (r, e)
    go g (err x) e h = λ resolved. cc (e, resolved.1)
    go g (fault f) e h = absurd h
