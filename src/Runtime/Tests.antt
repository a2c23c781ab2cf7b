-- ===== src/Runtime/Tests.antt =====
-- The identity of two definitions of one run, a definition with its validation, and the theorems at
-- them.
use mathlib.Core.List.{flat_map}
use kernis.Base.{false, true, cmp_text, ℕ, ◌≡◌, refl, none, some, List, [], ◌∷◌, codes, ok}
use kernis.Capability.Resolver.{resolve}
use kernis.Core.{checked_next, id, TextId, id_ord, is_blank, is_whitespace}
use kernis.BTree.Map
use kernis.BTree.Set
use kernis.Workflow.Topology
use kernis.Workflow.Graph.{apply_batch}
use kernis.Workflow.Cycle.{cycle_path}
use kernis.Capability.Resolver
use kernis.Capability.Definition
use kernis.Recovery.Model.{non_idempotent}
use kernis.Recovery.Durable.Facts.{WorkflowReplayIdentity}
use kernis.Runtime.Definition.{
  build_workflow, workflow_mutations, validate_workflow, add_dependencies, define, graph_of,
  validate_capability_graph, implicit, all_requirements, materialize,
  materialize_implicit_capabilities, validate_identity, validate_requirements,
  validate_dependencies, validate_each_capability, validate_each_task, validate_capabilities,
  validate_tasks, insert_capabilities, insert_tasks, unique_capabilities, unique_tasks,
  CapabilityRequirement, CapabilityDeclaration, TaskDefinition, RunDefinition, Tasks, Capabilities,
}
use kernis.Runtime.Identity.{canonical_text, canonical_identity, validated}
use kernis.Runtime.Collected.{Judges}
use kernis.Runtime.Validated.{IsValidated, validated-Judges}

abbrev requirement : CapabilityRequirement
requirement = record {
  capability_id = id "store";
  definition_identity = record { value = codes "v1" };
}

abbrev store : CapabilityDeclaration
store = record {
  id = id "store";
  kind = codes "store";
  definition_identity = record { value = codes "v1" };
  dependencies = [];
}

abbrev capabilities : Capabilities
capabilities = (id "store", store) ∷ []

abbrev plain : TextId → TaskDefinition
plain name = record {
  id = name;
  label = [];
  dependencies = [];
  required_capabilities = [];
  effect = none;
}

abbrev last_task : List ℕ → List TextId → TaskDefinition
last_task label dependencies = record {
  id = id "c";
  label = label;
  dependencies = dependencies;
  required_capabilities = requirement ∷ [];
  effect = some (record { operation_id = id "send"; semantics = non_idempotent });
}

abbrev tasks_with : TaskDefinition → Tasks
tasks_with last = (id "a", plain (id "a")) ∷ (id "b", plain (id "b")) ∷ (id "c", last) ∷ []

abbrev tasks : Tasks
tasks = tasks_with (last_task (codes "Send") (id "a" ∷ id "b" ∷ []))

-- Another label, and the dependencies in the other order.
abbrev tasks_again : Tasks
tasks_again = tasks_with (last_task (codes "Post") (id "b" ∷ id "a" ∷ []))

abbrev identity_of : Tasks → WorkflowReplayIdentity
identity_of ts = record { value = canonical_text (Map.values ts) (Map.values capabilities) }

-- The capability is declared by no one, so that it is made for the task.
abbrev sample : RunDefinition
sample = record {
  tasks = last_task (codes "Send") (id "a" ∷ []) ∷ plain (id "a") ∷ [];
  capabilities = [];
}

runs : Unit {0}
unfolding validated unique_tasks unique_capabilities insert_tasks insert_capabilities validate_tasks
    validate_capabilities validate_each_task validate_each_capability validate_dependencies
    validate_requirements validate_identity materialize_implicit_capabilities materialize
    all_requirements implicit validate_capability_graph graph_of define add_dependencies
    validate_workflow workflow_mutations build_workflow canonical_identity canonical_text is_blank
    is_whitespace id_ord cmp_text Map.get Map.insert Map.update Map.remove Set.insert Set.contains
    Set.remove apply_batch resolve Resolver.insert cycle_path checked_next
    Definition.with_replay_identity flat_map Definition.new Definition.add_dependency
    Definition.dependency_ord Topology.dependencies Topology.contains_task Topology.task_ids
runs = tt

-- The task that the other depends on is declared last, and no capability is.
accepts : elim (validated sample) [ ok _ ↦ true | _ ↦ false ] ≡ true
unfolding runs
accepts = refl

validated-Judges_example : Judges (IsValidated sample) (validated sample)
validated-Judges_example = validated-Judges sample
