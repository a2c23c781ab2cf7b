-- ===== src/Runtime/Definition.antt =====
-- crates/runtime-core/src/definition.rs: the definition of a run, and its validation against the
-- workflow graph and the capability graph.
use Prim.Native.Nat.Ordering.{eq}
use mathlib.Core.List.{flat_map}
use kernis.Base.{
  ℕ, Bool, true, false, not, Option, none, some, List, [], ◌∷◌, ◌++◌, map, if◌then◌else◌, Outcome,
  ok, err, fault, ◌>>=◌, ◌>>◌, list_eq, codes, cmp_text,
}
use kernis.Core.{TextId, id_ord, is_blank}
use kernis.BTree.Map
use kernis.BTree.Map.{Map}
use kernis.BTree.Set
use kernis.Workflow.Graph
use kernis.Workflow.Graph.{
  WorkflowMutation, WorkflowGraphError, add_task, add_dependency, apply_batch,
}
use kernis.Capability.Definition
use kernis.Capability.Resolver
use kernis.Capability.Resolver.{CapabilityGraph, CapabilityGraphError, resolve}
use kernis.Recovery.Model.{OperationId, EffectSemantics}

pub record DefinitionIdentity : Type 0 where
  pub value : List ℕ

pub record CapabilityRequirement : Type 0 where
  pub capability_id : TextId
  pub definition_identity : DefinitionIdentity

pub record CapabilityDeclaration : Type 0 where
  pub id : TextId
  pub kind : List ℕ
  pub definition_identity : DefinitionIdentity
  pub dependencies : List CapabilityRequirement

pub record EffectSpec : Type 0 where
  pub operation_id : OperationId
  pub semantics : EffectSemantics

pub record TaskDefinition : Type 0 where
  pub id : TextId
  pub label : List ℕ
  pub dependencies : List TextId
  pub required_capabilities : List CapabilityRequirement
  pub effect : Option EffectSpec

pub record RunDefinition : Type 0 where
  pub tasks : List TaskDefinition
  pub capabilities : List CapabilityDeclaration

pub data DefinitionError : Type 0 where
  duplicate_task duplicate_task_configuration duplicate_capability unknown_task :
      TextId → DefinitionError
  duplicate_task_dependency : (task_id : TextId) (dependency_id : TextId) → DefinitionError
  duplicate_capability_dependency :
      (capability_id : TextId) (dependency_id : TextId) → DefinitionError
  duplicate_capability_requirement : (task_id : TextId) (capability_id : TextId) → DefinitionError
  capability_identity_mismatch :
      (capability_id : TextId) (expected : DefinitionIdentity) (actual : DefinitionIdentity)
      → DefinitionError
  duplicate_operation : OperationId → DefinitionError
  workflow : WorkflowGraphError → DefinitionError
  capability_graph : CapabilityGraphError → DefinitionError
  -- the one reason that this file gives: a definition identity is empty
  invalid_definition : DefinitionError

-- The derived `==` of `DefinitionIdentity`.
abbrev pub same_identity : DefinitionIdentity → DefinitionIdentity → Bool
same_identity a b = elim (cmp_text a.value b.value) [ eq ↦ true | _ ↦ false ]

abbrev pub Fallible {ℓ} : Type ℓ → Type ℓ
Fallible A = Outcome DefinitionError A

abbrev pub Tasks : Type 0
Tasks = Map TextId TaskDefinition

abbrev pub Capabilities : Type 0
Capabilities = Map TextId CapabilityDeclaration

-- `DefinitionIdentity::new`
unfoldable pub new_identity : List ℕ → Fallible DefinitionIdentity
new_identity value =
    if is_blank value then err invalid_definition else ok (record { value = value })

-- `CapabilityDeclaration::implicit`; its kind is "capability".
unfoldable pub implicit : CapabilityRequirement → CapabilityDeclaration
implicit requirement = record {
  id = requirement.capability_id;
  kind = codes "capability";
  definition_identity = requirement.definition_identity;
  dependencies = [];
}

-- The loop of `unique_tasks` on the map so far.
unfoldable pub insert_tasks : List TaskDefinition → Tasks → Fallible Tasks
insert_tasks [] tasks = ok tasks
insert_tasks (task ∷ rest) tasks =
    if Map.contains_key tasks task.id
    then err (duplicate_task task.id)
    else insert_tasks rest (Map.insert tasks task.id task)

unfoldable pub unique_tasks : List TaskDefinition → Fallible Tasks
unique_tasks task_definitions = insert_tasks task_definitions []

unfoldable pub insert_capabilities :
    List CapabilityDeclaration → Capabilities → Fallible Capabilities
insert_capabilities [] capabilities = ok capabilities
insert_capabilities (capability ∷ rest) capabilities =
    if Map.contains_key capabilities capability.id
    then err (duplicate_capability capability.id)
    else insert_capabilities rest (Map.insert capabilities capability.id capability)

unfoldable pub unique_capabilities : List CapabilityDeclaration → Fallible Capabilities
unique_capabilities declarations = insert_capabilities declarations []

unfoldable pub validate_identity : DefinitionIdentity → Fallible (Unit {0})
validate_identity identity = if is_blank identity.value then err invalid_definition else ok tt

-- The loop over the dependencies of a task, with those seen.
unfoldable pub validate_dependencies :
    Tasks → TextId → List TextId → List TextId → Fallible (Unit {0})
validate_dependencies tasks task_id [] seen = ok tt
validate_dependencies tasks task_id (d ∷ ds) seen =
    if Set.contains seen d
    then err (duplicate_task_dependency task_id d)
    else if not (Map.contains_key tasks d)
    then err (unknown_task d)
    else validate_dependencies tasks task_id ds (Set.insert seen d)

-- The loop over the capabilities that a task or a capability requires, with those seen.
unfoldable pub validate_requirements :
    (TextId → DefinitionError) → List CapabilityRequirement → List TextId → Fallible (Unit {0})
validate_requirements duplicate [] seen = ok tt
validate_requirements duplicate (r ∷ rs) seen =
    validate_identity r.definition_identity
    >> (if Set.contains seen r.capability_id
        then err (duplicate r.capability_id)
        else validate_requirements duplicate rs (Set.insert seen r.capability_id))

-- The operations that are claimed after an effect.
abbrev pub claim : Option EffectSpec → List OperationId → Fallible (List OperationId)
claim none operations = ok operations
claim (some effect) operations =
    if Set.contains operations effect.operation_id
    then err (duplicate_operation effect.operation_id)
    else ok (Set.insert operations effect.operation_id)

-- The loop of `validate_tasks`, with the operations claimed so far.
unfoldable pub validate_each_task :
    Tasks → List TaskDefinition → List OperationId → Fallible (Unit {0})
validate_each_task tasks [] operations = ok tt
validate_each_task tasks (task ∷ rest) operations =
    validate_dependencies tasks task.id task.dependencies []
    >> validate_requirements (duplicate_capability_requirement task.id) task.required_capabilities
        []
    >> claim task.effect operations
    >>= validate_each_task tasks rest

unfoldable pub validate_tasks : Tasks → Fallible (Unit {0})
validate_tasks tasks = validate_each_task tasks (Map.values tasks) []

unfoldable pub validate_each_capability : List CapabilityDeclaration → Fallible (Unit {0})
validate_each_capability [] = ok tt
validate_each_capability (c ∷ cs) =
    validate_identity c.definition_identity
    >> validate_requirements (duplicate_capability_dependency c.id) c.dependencies []
    >> validate_each_capability cs

unfoldable pub validate_capabilities : Capabilities → Fallible (Unit {0})
validate_capabilities capabilities = validate_each_capability (Map.values capabilities)

-- The requirements of all tasks, and those of all declared capabilities.
unfoldable pub all_requirements : Tasks → Capabilities → List CapabilityRequirement
all_requirements tasks capabilities =
    flat_map (λ task. task.required_capabilities) (Map.values tasks)
    ++ flat_map (λ capability. capability.dependencies) (Map.values capabilities)

-- The loop of `materialize_implicit_capabilities`.
unfoldable pub materialize : List CapabilityRequirement → Capabilities → Fallible Capabilities
materialize [] capabilities = ok capabilities
materialize (r ∷ rs) capabilities = elim (Map.get capabilities r.capability_id) [
  | none ↦ materialize rs (Map.insert capabilities r.capability_id (implicit r))
  | some capability ↦
      if same_identity capability.definition_identity r.definition_identity
      then materialize rs capabilities
      else err (
          capability_identity_mismatch r.capability_id capability.definition_identity
            r.definition_identity)
]

unfoldable pub materialize_implicit_capabilities : Tasks → Capabilities → Fallible Capabilities
materialize_implicit_capabilities tasks capabilities =
    materialize (all_requirements tasks capabilities) capabilities

-- The mutations that build the workflow: the tasks, then their dependencies.
unfoldable pub workflow_mutations : Tasks → List WorkflowMutation
workflow_mutations tasks =
    map (λ task. add_task (record { id = task.id; label = task.label })) (Map.values tasks)
    ++ flat_map (λ task. map (λ d. add_dependency task.id d) task.dependencies) (Map.values tasks)

-- `apply_batch` on a new workflow, with its error mapped.
unfoldable pub build_workflow : List WorkflowMutation → Fallible (Unit {0})
build_workflow mutations =
    elim (apply_batch Graph.default.topology_revision mutations Graph.default).0 [
      | ok _ ↦ ok tt
      | err e ↦ err (workflow e)
      | fault f ↦ fault f
    ]

unfoldable pub validate_workflow : Tasks → Fallible (Unit {0})
validate_workflow tasks = elim (workflow_mutations tasks) [
  | [] ↦ ok tt
  | m ∷ ms ↦ build_workflow (m ∷ ms)
]

-- `definition.add_dependency` for each of the dependencies.
unfoldable pub add_dependencies :
    List CapabilityRequirement → Definition.CapabilityDefinition → Definition.CapabilityDefinition
add_dependencies [] definition = definition
add_dependencies (r ∷ rs) definition =
    add_dependencies rs (Definition.add_dependency definition r.capability_id)

-- The capability of a declaration, as the capability graph defines it.
unfoldable pub define : CapabilityDeclaration → Definition.CapabilityDefinition
define c =
    add_dependencies c.dependencies
      (Definition.with_replay_identity (Definition.new c.id c.kind) c.definition_identity.value)

unfoldable pub graph_of : List CapabilityDeclaration → CapabilityGraph → CapabilityGraph
graph_of [] graph = graph
graph_of (c ∷ cs) graph = graph_of cs (Resolver.insert graph (define c)).1

unfoldable pub validate_capability_graph : Capabilities → Fallible (Unit {0})
validate_capability_graph capabilities =
    elim (resolve (graph_of (Map.values capabilities) Resolver.default)) [
      | ok _ ↦ ok tt
      | err e ↦ err (capability_graph e)
      | fault f ↦ fault f
    ]
