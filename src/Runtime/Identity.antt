-- ===== src/Runtime/Identity.antt =====
-- crates/runtime-core/src/definition.rs: the canonical text of a definition, which is its identity,
-- and the validation that ends with it. A `push_` function of the source appends to the text so far;
-- here it is given the text that follows.
pub mod Code
pub mod Normal
use Prim.Native.Nat.{◌%◌, ◌/◌}
use Prim.Native.Nat.Ordering.{gt}
use kernis.Base.{
  ℕ, zero, suc, ◌+◌, Bool, true, false, Option, none, some, List, [], ◌∷◌, ◌++◌, if◌then◌else◌, ltb,
  length, codes, String, Outcome, ok, err, fault, ◌>>=◌, ◌>>◌, Ord,
}
use kernis.Core.{TextId, id_ord, is_blank}
use kernis.BTree.Map
use kernis.BTree.Map.{Map}
use kernis.Recovery.Model.{EffectSemantics, idempotent, non_idempotent}
use kernis.Recovery.Durable.Facts.{WorkflowReplayIdentity}
use kernis.Runtime.Definition.{
  CapabilityRequirement, CapabilityDeclaration, EffectSpec, TaskDefinition, RunDefinition,
  DefinitionError, invalid_definition, Fallible, Tasks, Capabilities, unique_tasks,
  unique_capabilities, validate_tasks, validate_capabilities, materialize_implicit_capabilities,
  validate_capability_graph, validate_workflow,
}

abbrev pub run_definition_format : List ℕ
run_definition_format = codes "kernis-run-definition-v2"

-- `to_string` of a number: its decimal digits. One more than the number is fuel enough.
unfoldable pub digits : ℕ → ℕ → List ℕ
digits zero n = []
digits (suc fuel) n =
    let rest = digits fuel (n / 10) in
    if ltb n 10 then (48 + n) ∷ [] else rest ++ (48 + n % 10) ∷ []

unfoldable pub to_string : ℕ → List ℕ
to_string n = digits (suc n) n

-- The bytes of a code point in UTF-8.
abbrev pub char_len : ℕ → ℕ
char_len c = if ltb c 0x80 then 1 else if ltb c 0x800 then 2 else if ltb c 0x10000 then 3 else 4

-- `len` of a text, which counts bytes.
abbrev pub byte_len : List ℕ → ℕ
byte_len [] = 0
byte_len (c ∷ cs) = char_len c + byte_len cs

unfoldable pub push_tag : String → List ℕ → List ℕ
push_tag tag rest = codes "#" ++ (codes tag ++ rest)

unfoldable pub push_count : ℕ → List ℕ → List ℕ
push_count count rest = codes "[" ++ (to_string count ++ (codes "]" ++ rest))

unfoldable pub push_value : List ℕ → List ℕ → List ℕ
push_value value rest = codes "%" ++ (to_string (byte_len value) ++ (codes ":" ++ (value ++ rest)))

-- A loop that pushes each of a list.
abbrev pub push_each {ℓ} : {A : Type ℓ} → (A → List ℕ → List ℕ) → List A → List ℕ → List ℕ
push_each push [] rest = rest
push_each push (a ∷ more) rest = push a (push_each push more rest)

module _ {ℓ κ} {K : Type ℓ} {V : Type κ} ⦃o : Ord K⦄ (key : V → K) where
  unfoldable pub insert_by : V → List V → List V
  insert_by a [] = a ∷ []
  insert_by a (x ∷ xs) =
      let rest = insert_by a xs in elim (o.cmp (key a) (key x)) [ gt ↦ x ∷ rest | _ ↦ a ∷ x ∷ xs ]

  -- `sort_by` on a key: stable.
  unfoldable pub sort_by : List V → List V
  sort_by [] = []
  sort_by (x ∷ xs) = insert_by x (sort_by xs)

-- `dependencies.sort()` and `requirements.sort_by(…)`
abbrev pub sort_ids : List TextId → List TextId
sort_ids = sort_by (λ d. d)

abbrev pub sort_requirements : List CapabilityRequirement → List CapabilityRequirement
sort_requirements = sort_by (λ r. r.capability_id)

abbrev pub push_requirement : CapabilityRequirement → List ℕ → List ℕ
push_requirement r rest =
    push_value r.capability_id.value (push_value r.definition_identity.value rest)

unfoldable pub push_requirements : List CapabilityRequirement → List ℕ → List ℕ
push_requirements requirements rest =
    let sorted = sort_requirements requirements in
    push_tag "requires"
      (push_count (length sorted) (push_each push_requirement sorted (push_tag "end" rest)))

unfoldable pub push_capability : CapabilityDeclaration → List ℕ → List ℕ
push_capability c rest = push_tag "capability" (
    push_value c.id.value (
      push_value c.kind
        (push_value c.definition_identity.value (push_requirements c.dependencies rest))))

abbrev pub push_semantics : EffectSemantics → List ℕ → List ℕ
push_semantics idempotent rest = push_tag "idempotent" rest
push_semantics non_idempotent rest = push_tag "non_idempotent" rest

unfoldable pub push_effect : Option EffectSpec → List ℕ → List ℕ
push_effect none rest = push_tag "effect" (push_tag "absent" rest)
push_effect (some effect) rest = push_tag "effect" (
    push_tag "present"
      (push_value effect.operation_id.value (push_semantics effect.semantics rest)))

unfoldable pub push_task : TaskDefinition → List ℕ → List ℕ
push_task task rest =
    let sorted = sort_ids task.dependencies in
    push_tag "task" (
      push_value task.id.value (
        push_tag "depends" (
          push_count (length sorted) (
            push_each (λ d. push_value d.value) sorted
              (push_tag "end"
                (push_requirements task.required_capabilities (push_effect task.effect rest)))))))

-- The text, of the values of both maps in the order of their keys.
unfoldable pub canonical_text : List TaskDefinition → List CapabilityDeclaration → List ℕ
canonical_text tasks capabilities =
    run_definition_format
    ++ push_tag "capabilities" (
        push_count (length capabilities) (
          push_each push_capability capabilities (
            push_tag "end" (
              push_tag "tasks"
                (push_count (length tasks) (push_each push_task tasks (push_tag "end" [])))))))

-- `WorkflowReplayIdentity::new` of the text.
unfoldable pub canonical_identity : Tasks → Capabilities → Fallible WorkflowReplayIdentity
canonical_identity tasks capabilities =
    let canonical = canonical_text (Map.values tasks) (Map.values capabilities) in
    if is_blank canonical then err invalid_definition else ok (record { value = canonical })

pub record ValidatedRunDefinition : Type 0 where
  pub tasks : Tasks
  pub capabilities : Capabilities
  pub identity : WorkflowReplayIdentity

unfoldable pub validated : RunDefinition → Fallible ValidatedRunDefinition
validated d = unique_tasks d.tasks >>= λ tasks. unique_capabilities d.capabilities >>= λ declared.
    validate_tasks tasks >>= λ _. validate_capabilities declared >>= λ _.
    materialize_implicit_capabilities tasks declared >>= λ capabilities.
    validate_capabilities capabilities >>= λ _. validate_capability_graph capabilities >>= λ _.
    validate_workflow tasks >>= λ _. canonical_identity tasks capabilities >>= λ identity.
    ok (record { tasks = tasks; capabilities = capabilities; identity = identity })

unfoldable pub validate : RunDefinition → Fallible (Unit {0})
validate d = validated d >>= λ _. ok tt

unfoldable pub identity : RunDefinition → Fallible WorkflowReplayIdentity
identity d = validated d >>= λ v. ok v.identity
