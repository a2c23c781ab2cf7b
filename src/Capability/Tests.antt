-- ===== src/Capability/Tests.antt =====
-- Runs of the capability graph on small inputs, and the theorems at them.
use kernis.Base.{◌≡◌, refl, ◌↔◌, [], ◌∷◌, ok, err, codes}
use kernis.Core.{TextId, id, id_ord}
use kernis.BTree.Map
use kernis.BTree.Set
use kernis.Dfs.Path.{position}
use kernis.Capability.Definition.{CapabilityDefinition, new, depends_on, dependency_ord}
use kernis.Capability.Resolver.{
  CapabilityGraph, ResolvedCapabilityGraph, cycle, missing_dependency, from_definitions, resolve,
  require, insert, validate_candidate, teardown_order,
}
use kernis.Capability.Resolver.Spec.{registered}
use kernis.Capability.Resolver.Order.{IsTeardown}
use kernis.Capability.Resolver.Correct.{
  ResolveEnsures, resolve-Ensures, IsResolved, IsClosed, IsAcyclic, resolve_iff,
  teardown_order-IsTeardown,
}
use kernis.Capability.Resolver.Editing.{
  RequireEnsures, require-Ensures, ValidateEnsures, validate_candidate-Ensures,
}

abbrev model : CapabilityDefinition
model = new (id "model") (codes "model")

abbrev service : CapabilityDefinition
service = depends_on (new (id "service") (codes "service")) (id "model")

abbrev agent : CapabilityDefinition
agent = depends_on (depends_on (new (id "agent") (codes "tool")) (id "service")) (id "model")

abbrev loop : CapabilityDefinition
loop = depends_on (new (id "model") (codes "model")) (id "agent")

abbrev graph : CapabilityGraph
graph = from_definitions (agent ∷ service ∷ model ∷ [])

abbrev resolved : ResolvedCapabilityGraph
resolved = record { construction_order = id "model" ∷ id "service" ∷ id "agent" ∷ [] }

-- All that a run computes with.
runs : Unit {0}
unfolding new depends_on from_definitions resolve require insert validate_candidate teardown_order
    position id_ord dependency_ord Map.insert Map.get Map.update Set.insert Set.contains
runs = tt

graph-resolved : resolve graph ≡ ok resolved
unfolding runs
graph-resolved = refl

graph-teardown : teardown_order resolved ≡ id "agent" ∷ id "service" ∷ id "model" ∷ []
unfolding runs
graph-teardown = refl

loop-cycle : resolve (insert graph loop).1 ≡ err (cycle (id "agent" ∷ id "model" ∷ id "agent" ∷ []))
unfolding runs
loop-cycle = refl

missing_model :
    resolve (from_definitions (agent ∷ service ∷ []))
    ≡ err (missing_dependency (id "agent") (id "model"))
unfolding runs
missing_model = refl

resolve-Ensures_example : ResolveEnsures graph (resolve graph)
resolve-Ensures_example = resolve-Ensures graph

resolve_iff_example : IsResolved graph ↔ (IsClosed graph × IsAcyclic graph)
resolve_iff_example = resolve_iff graph

teardown_order-IsTeardown_example :
    IsTeardown graph (teardown_order resolved)
    × ((c : TextId) → Set.contains (teardown_order resolved) c ≡ registered graph c)
teardown_order-IsTeardown_example = teardown_order-IsTeardown graph resolved graph-resolved

require-Ensures_example :
    RequireEnsures graph (id "model") (id "agent") (require graph (id "model") (id "agent"))
require-Ensures_example = require-Ensures graph (id "model") (id "agent")

validate_candidate-Ensures_example : ValidateEnsures graph loop (validate_candidate graph loop)
validate_candidate-Ensures_example = validate_candidate-Ensures graph loop
