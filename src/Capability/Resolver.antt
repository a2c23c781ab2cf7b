-- ===== src/Capability/Resolver.antt =====
-- crates/capability-graph/src/resolver.rs: `CapabilityGraph` and its resolution.
pub mod Spec
pub mod Leave
pub mod Visits
pub mod Order
pub mod Correct
pub mod Editing
use mathlib.Core.List.{reverse}
use kernis.Base.{
  ℕ, zero, suc, true, false, Option, none, some, List, [], ◌∷◌, ◌++◌, map, is_some, if◌then◌else◌,
  length, drop, pop, Outcome, ok, err, fault, panic, out_of_fuel, ◌>>=◌,
}
use kernis.Core.{TextId, id_ord}
use kernis.BTree.Map
use kernis.BTree.Map.{Map}
use kernis.Dfs.Path.{position}
use kernis.Capability.Definition.{CapabilityId, CapabilityDefinition, Dependency, add_dependency}

pub record CapabilityGraph : Type 0 where
  pub definitions : Map CapabilityId CapabilityDefinition

pub data CapabilityGraphError : Type 0 where
  unknown_capability : CapabilityId → CapabilityGraphError
  missing_dependency : CapabilityId → CapabilityId → CapabilityGraphError
  cycle : List CapabilityId → CapabilityGraphError

abbrev pub Fallible {ℓ} : Type ℓ → Type ℓ
Fallible = Outcome CapabilityGraphError

abbrev pub default : CapabilityGraph
default = record { definitions = [] }

-- The definition that was there, and the new graph.
unfoldable pub insert :
    CapabilityGraph → CapabilityDefinition → Option CapabilityDefinition × CapabilityGraph
insert g c = (Map.get g.definitions c.id, record { definitions = Map.insert g.definitions c.id c })

unfoldable pub require :
    CapabilityGraph → CapabilityId → CapabilityId → Fallible (Unit {0}) × CapabilityGraph
require g consumer dependency =
    if Map.contains_key g.definitions consumer
    then (if Map.contains_key g.definitions dependency
        then (
          ok tt,
          record {
            definitions = Map.update g.definitions consumer (λ c. add_dependency c dependency);
          },
        )
        else (err (missing_dependency consumer dependency), g))
    else (err (unknown_capability consumer), g)

unfoldable pub requirements : CapabilityGraph → CapabilityId → List CapabilityId
requirements g capability = elim (Map.get g.definitions capability) [
  | none ↦ []
  | some definition ↦ map (λ dependency. dependency.id) definition.dependencies
]

pub data VisitState : Type 0 where
  active done : VisitState

-- What `visit` changes.
pub record Visit : Type 0 where
  pub states : Map CapabilityId VisitState
  pub active_path : List CapabilityId
  pub construction_order : List CapabilityId

-- The arm for a capability that is `Active`.
unfoldable pub close_cycle : List CapabilityId → CapabilityId → Fallible Visit
close_cycle active_path id = elim (position active_path id) [
  | none ↦ fault panic
  | some start ↦ err (cycle (drop start active_path ++ id ∷ []))
]

-- What `visit` does before its loop.
unfoldable pub enter : CapabilityId → Visit → Visit
enter id v = record v {
  states = Map.insert v.states id active;
  active_path = v.active_path ++ id ∷ [];
}

-- What `visit` does after its loop.
unfoldable pub leave : CapabilityId → Visit → Visit
leave id v = record {
  states = Map.insert v.states id done;
  active_path = pop v.active_path;
  construction_order = v.construction_order ++ id ∷ [];
}

module _ (definitions : Map CapabilityId CapabilityDefinition) where
  -- The loop of `visit` over the dependencies; `visit'` is the recursive call.
  unfoldable pub visit_dependencies :
      (CapabilityId → Visit → Fallible Visit)
      → CapabilityId
      → List Dependency
      → Visit
      → Fallible Visit
  visit_dependencies visit' id [] v = ok v
  visit_dependencies visit' id (dependency ∷ ds) v =
      elim (Map.contains_key definitions dependency.id) [
        | false ↦ err (missing_dependency id dependency.id)
        | true ↦ visit' dependency.id v >>= visit_dependencies visit' id ds
      ]

  -- The fuel bounds the depth of the recursion.
  unfoldable pub visit : ℕ → CapabilityId → Visit → Fallible Visit
  unfolding visit_dependencies close_cycle enter leave
  visit zero id v = fault out_of_fuel
  visit (suc fuel) id v = elim (Map.get v.states id) [
    | some done ↦ ok v
    | some active ↦ close_cycle v.active_path id
    | none ↦ elim (Map.get definitions id) [
      | none ↦ fault panic
      | some definition ↦
          visit_dependencies (visit fuel) id definition.dependencies (enter id v) >>= λ v'.
          ok (leave id v')
    ]
  ]

  -- The loop of `resolve` over the keys.
  unfoldable pub visit_all : ℕ → List CapabilityId → Visit → Fallible Visit
  unfolding visit
  visit_all fuel [] v = ok v
  visit_all fuel (id ∷ ids) v = visit fuel id v >>= visit_all fuel ids

pub record ResolvedCapabilityGraph : Type 0 where
  pub construction_order : List CapabilityId

abbrev pub no_visit : Visit
no_visit = record { states = []; active_path = []; construction_order = [] }

-- A call for a capability that is not marked marks it, so the calls nest at most one deeper than
-- there are capabilities.
unfoldable pub resolve : CapabilityGraph → Fallible ResolvedCapabilityGraph
unfolding visit_all
resolve g =
    visit_all g.definitions (suc (length (Map.keys g.definitions))) (Map.keys g.definitions)
      no_visit
    >>= λ v. ok (record { construction_order = v.construction_order })

-- `ResolvedCapabilityGraph::teardown_order`
unfoldable pub teardown_order : ResolvedCapabilityGraph → List CapabilityId
teardown_order r = reverse r.construction_order

pub record ValidatedCapabilityDefinition : Type 0 where
  pub definition : CapabilityDefinition
  pub resolution : ResolvedCapabilityGraph

-- The candidate is inserted into a clone.
unfoldable pub validate_candidate :
    CapabilityGraph → CapabilityDefinition → Fallible ValidatedCapabilityDefinition
unfolding insert resolve
validate_candidate g candidate = resolve (insert g candidate).1 >>= λ resolution.
    ok (record { definition = candidate; resolution = resolution })

unfoldable pub len : CapabilityGraph → ℕ
len g = length g.definitions

-- `from_definitions`
unfoldable pub insert_all : List CapabilityDefinition → CapabilityGraph → CapabilityGraph
unfolding insert
insert_all [] g = g
insert_all (c ∷ cs) g = insert_all cs (insert g c).1

unfoldable pub from_definitions : List CapabilityDefinition → CapabilityGraph
unfolding insert_all
from_definitions cs = insert_all cs default
