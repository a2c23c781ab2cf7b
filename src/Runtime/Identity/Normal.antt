-- ===== src/Runtime/Identity/Normal.antt =====
-- Two definitions have one identity exactly where they are the same up to the order of dependencies
-- and requirements, and up to the labels of tasks.
use kernis.Base.{ℕ, List, [], ◌++◌, length}
use kernis.BTree.Map
use kernis.Runtime.Definition.{CapabilityRequirement, CapabilityDeclaration, TaskDefinition}
use kernis.Runtime.Identity.{
  run_definition_format, push_tag, push_count, push_value, push_each, sort_ids, sort_requirements,
  push_requirement, push_effect,
}

-- What of a task its identity depends on.
abbrev pub normal_task : TaskDefinition → TaskDefinition
normal_task t = record t {
  label = [];
  dependencies = sort_ids t.dependencies;
  required_capabilities = sort_requirements t.required_capabilities;
}

abbrev pub normal_capability : CapabilityDeclaration → CapabilityDeclaration
normal_capability c = record c { dependencies = sort_requirements c.dependencies }

-- The same pieces, pushed from the normal forms.
abbrev push_sorted : List CapabilityRequirement → List ℕ → List ℕ
push_sorted sorted rest =
    push_tag "requires"
      (push_count (length sorted) (push_each push_requirement sorted (push_tag "end" rest)))

abbrev push_normal_capability : CapabilityDeclaration → List ℕ → List ℕ
push_normal_capability c rest = push_tag "capability" (
    push_value c.id.value (
      push_value c.kind (push_value c.definition_identity.value (push_sorted c.dependencies rest))))

abbrev push_normal_task : TaskDefinition → List ℕ → List ℕ
push_normal_task t rest = push_tag "task" (
    push_value t.id.value (
      push_tag "depends" (
        push_count (length t.dependencies) (
          push_each (λ d. push_value d.value) t.dependencies
            (push_tag "end" (push_sorted t.required_capabilities (push_effect t.effect rest)))))))

abbrev normal_text : List TaskDefinition → List CapabilityDeclaration → List ℕ
normal_text tasks capabilities =
    run_definition_format
    ++ push_tag "capabilities" (
        push_count (length capabilities) (
          push_each push_normal_capability capabilities (
            push_tag "end" (
              push_tag "tasks" (
                push_count (length tasks)
                  (push_each push_normal_task tasks (push_tag "end" [])))))))
