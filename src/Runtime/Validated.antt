-- ===== src/Runtime/Validated.antt =====
-- What a validated definition is, and that validation returns it where there is one.
use kernis.Base.{
  ◌≡◌, refl, sym, ap, subst, List, [], ◌∷◌, ◌++◌, ok, err, fault, ◌>>=◌, ◌>>◌, arith, Bool-cases,
}
use mathlib.Core.List.{flat_map}
use kernis.Core.{TextId, id_ord, is_blank}
use kernis.BTree.Map
use kernis.BTree.Map.{Map}
use kernis.Dfs.Path.{IsCycle}
use kernis.Recovery.Durable.Facts.{WorkflowReplayIdentity}
use kernis.Runtime.Definition.{
  CapabilityRequirement, CapabilityDeclaration, TaskDefinition, RunDefinition, Fallible, Tasks,
  Capabilities, materialize_implicit_capabilities, materialize, all_requirements, validate_workflow,
  validate_capability_graph, unique_tasks, unique_capabilities, validate_tasks,
  validate_capabilities,
}
use kernis.Runtime.Identity.{ValidatedRunDefinition, validated, canonical_text, canonical_identity}
use kernis.Runtime.Validation.{
  Decides, Each, AreSoundTasks, IsSoundCapability, validate_each_task-Decides,
  validate_each_capability-Decides,
}
use kernis.Runtime.Collected.{
  Judges, collect, AreNew, insert_tasks-Judges, insert_capabilities-Judges, Supplies, supplement,
  materialize-Judges,
}
use kernis.Runtime.Keyed.{IsKeyed, collected-IsKeyed, supplement-IsKeyed}
use kernis.Runtime.Depends.{IsSupplyGraph, validate_capability_graph-Decides}
use kernis.Runtime.Waits.{Waits}
use kernis.Runtime.Accepted.{validate_workflow-Decides}

-- A step whose result is known.
>>=-Judges :
    {A B : Type 0} (x : A) (P : A → Type 0) (Q : B → Type 0) (step : Fallible A)
    (next : A → Fallible B)
    → Judges (λ a. (a ≡ x) × P a) step
    → ((b : B) → Q b → P x)
    → (P x → Judges Q (next x))
    → Judges Q (step >>= next)
>>=-Judges x P Q (ok a) next h needed k =
    subst (λ y. Judges Q (next y)) (sym h.0) (k (subst P h.0 h.1))
>>=-Judges x P Q (err _) next h needed k = λ b q. h x (refl, needed b q)
>>=-Judges x P Q (fault _) next h needed k = absurd h

-- A step that only tests.
>>-Judges :
    {B : Type 0} (P : Type 0) (Q : B → Type 0) (step : Fallible (Unit {0})) (rest : Fallible B)
    → Decides P step
    → ((b : B) → Q b → P)
    → (P → Judges Q rest)
    → Judges Q (step >> rest)
>>-Judges P Q (ok _) rest h needed k = k h
>>-Judges P Q (err _) rest h needed k = λ b q. h (needed b q)
>>-Judges P Q (fault _) rest h needed k = absurd h

-- The maps that a definition is validated with.
abbrev pub tasks_of : RunDefinition → Tasks
tasks_of d = collect (λ t. t.id) d.tasks []

abbrev pub declared_of : RunDefinition → Capabilities
declared_of d = collect (λ c. c.id) d.capabilities []

-- What a list of tasks requires, and what a list of capabilities depends on.
abbrev pub required_by : List TaskDefinition → List CapabilityRequirement
required_by [] = []
required_by (t ∷ ts) = t.required_capabilities ++ required_by ts

abbrev pub depended_on_by : List CapabilityDeclaration → List CapabilityRequirement
depended_on_by [] = []
depended_on_by (c ∷ cs) = c.dependencies ++ depended_on_by cs

-- What the tasks require, and what the declared capabilities depend on.
abbrev pub requirements_of : RunDefinition → List CapabilityRequirement
requirements_of d =
    required_by (Map.values (tasks_of d)) ++ depended_on_by (Map.values (declared_of d))

abbrev pub capabilities_of : RunDefinition → Capabilities
capabilities_of d = supplement (requirements_of d) (declared_of d)

required_by-eq :
    (ts : List TaskDefinition) → flat_map (λ t. t.required_capabilities) ts ≡ required_by ts
unfolding flat_map
required_by-eq [] = refl
required_by-eq (t ∷ ts) = ap (λ rs. t.required_capabilities ++ rs) (required_by-eq ts)

depended_on_by-eq :
    (cs : List CapabilityDeclaration) → flat_map (λ c. c.dependencies) cs ≡ depended_on_by cs
unfolding flat_map
depended_on_by-eq [] = refl
depended_on_by-eq (c ∷ cs) = ap (λ rs. c.dependencies ++ rs) (depended_on_by-eq cs)

all_requirements-eq :
    (tasks : Tasks) (declared : Capabilities)
    → all_requirements tasks declared
      ≡ required_by (Map.values tasks) ++ depended_on_by (Map.values declared)
unfolding all_requirements
all_requirements-eq tasks declared =
    rw (required_by-eq (Map.values tasks), depended_on_by-eq (Map.values declared)) refl

-- A definition that is in order.
pub record IsSound (d : RunDefinition) : Type 0 where
  -- No task and no capability is declared twice.
  pub distinct_tasks : AreNew (λ t. t.id) d.tasks []
  pub distinct_capabilities : AreNew (λ c. c.id) d.capabilities []
  pub sound_tasks : AreSoundTasks (tasks_of d) (Map.values (tasks_of d)) []
  pub sound_declared : Each IsSoundCapability (Map.values (declared_of d))
  -- Whatever is required agrees with what is declared.
  pub supplied : Each (Supplies (capabilities_of d)) (requirements_of d)
  pub sound_capabilities : Each IsSoundCapability (Map.values (capabilities_of d))
  -- What capabilities depend on is there, and they do not depend on one another in a circle.
  pub supply_graph : IsSupplyGraph (capabilities_of d)
  -- Nor do tasks wait for one another in a circle.
  pub acyclic : (p : List TextId) → ¬ IsCycle (Waits (tasks_of d)) p

-- The validated form of a definition that is in order.
pub record IsValidated (d : RunDefinition) (v : ValidatedRunDefinition) : Type 0 where
  pub sound : IsSound d
  pub tasks : v.tasks ≡ tasks_of d
  pub capabilities : v.capabilities ≡ capabilities_of d
  pub identified : canonical_identity (tasks_of d) (capabilities_of d) ≡ ok v.identity

abbrev sealed : RunDefinition → Fallible WorkflowReplayIdentity → Fallible ValidatedRunDefinition
sealed d r = r >>= λ identity.
    ok (record { tasks = tasks_of d; capabilities = capabilities_of d; identity = identity })

canonical_identity-NoFault :
    (tasks : Tasks) (capabilities : Capabilities) (f : _)
    → ¬ (canonical_identity tasks capabilities ≡ fault f)
unfolding canonical_identity
canonical_identity-NoFault tasks capabilities f e =
    ground
      (arith, Bool-cases (is_blank (canonical_text (Map.values tasks) (Map.values capabilities))))

sealed-Judges :
    (d : RunDefinition)
    → IsSound d
    → Judges (IsValidated d) (sealed d (canonical_identity (tasks_of d) (capabilities_of d)))
sealed-Judges d sound = go (canonical_identity (tasks_of d) (capabilities_of d)) refl
  where
    go :
        (r : Fallible WorkflowReplayIdentity)
        → canonical_identity (tasks_of d) (capabilities_of d) ≡ r
        → Judges (IsValidated d) (sealed d r)
    go (ok i) e = record { sound = sound; tasks = refl; capabilities = refl; identified = e }
    go (err x) e = λ v h. cc (e, h.identified)
    go (fault f) e = absurd (canonical_identity-NoFault (tasks_of d) (capabilities_of d) f e)

materialized-Judges :
    (d : RunDefinition)
    → Judges
        (λ n. (n ≡ capabilities_of d) × Each (Supplies n) (requirements_of d))
        (materialize_implicit_capabilities (tasks_of d) (declared_of d))
unfolding materialize_implicit_capabilities
materialized-Judges d =
    subst
      (λ rs.
        Judges (λ n. (n ≡ capabilities_of d) × Each (Supplies n) (requirements_of d))
          (materialize rs (declared_of d)))
      (sym (all_requirements-eq (tasks_of d) (declared_of d)))
      (materialize-Judges (requirements_of d) (declared_of d))

declared-IsKeyed :
    (d : RunDefinition)
    → AreNew (λ c. c.id) d.capabilities []
    → IsKeyed (λ c. c.id) (capabilities_of d)
declared-IsKeyed d distinct =
    supplement-IsKeyed (requirements_of d) (declared_of d)
      (collected-IsKeyed (λ c. c.id) d.capabilities distinct)

-- The end of the validation, behind the capabilities that it works with.
module _ (d : RunDefinition) (distinct_tasks : AreNew (λ t. t.id) d.tasks [])
    (distinct_capabilities : AreNew (λ c. c.id) d.capabilities [])
    (sound_tasks : AreSoundTasks (tasks_of d) (Map.values (tasks_of d)) [])
    (sound_declared : Each IsSoundCapability (Map.values (declared_of d)))
    (supplied : Each (Supplies (capabilities_of d)) (requirements_of d)) where
  abbrev ending : Fallible ValidatedRunDefinition
  ending = validate_capabilities (capabilities_of d) >>= λ _.
      validate_capability_graph (capabilities_of d) >>= λ _. validate_workflow (tasks_of d) >>= λ _.
      sealed d (canonical_identity (tasks_of d) (capabilities_of d))

  ending-Judges : Judges (IsValidated d) ending
  unfolding validate_capabilities
  ending-Judges =
      let Q = IsValidated d in
      >>-Judges (Each IsSoundCapability (Map.values (capabilities_of d))) Q _ _
        (validate_each_capability-Decides (Map.values (capabilities_of d)))
        (λ v h. h.sound.sound_capabilities)
        (λ sound_capabilities.
          >>-Judges (IsSupplyGraph (capabilities_of d)) Q _ _
            (validate_capability_graph-Decides (capabilities_of d)
              (declared-IsKeyed d distinct_capabilities))
            (λ v h. h.sound.supply_graph)
            (λ supply_graph.
              >>-Judges ((p : List TextId) → ¬ IsCycle (Waits (tasks_of d)) p) Q _ _
                (validate_workflow-Decides (tasks_of d)
                  (collected-IsKeyed (λ t. t.id) d.tasks distinct_tasks) sound_tasks.0)
                (λ v h. h.sound.acyclic)
                (λ acyclic. sealed-Judges d (record {
                  distinct_tasks = distinct_tasks;
                  distinct_capabilities = distinct_capabilities;
                  sound_tasks = sound_tasks;
                  sound_declared = sound_declared;
                  supplied = supplied;
                  sound_capabilities = sound_capabilities;
                  supply_graph = supply_graph;
                  acyclic = acyclic;
                }))))

-- The validation of a definition never panics. It returns a validated definition exactly where the
-- definition is in order: no task and no capability is declared twice; each task depends on known
-- tasks, on each once; requirements are distinct, have an identity that is not blank and agree with
-- the capabilities that are declared or required elsewhere; no operation is claimed twice; and
-- neither tasks nor capabilities depend on one another in a circle. What it returns has the tasks,
-- the capabilities with an implicit one for each that is required and not declared, and their
-- canonical identity.
pub validated-Judges : (d : RunDefinition) → Judges (IsValidated d) (validated d)
unfolding validated unique_tasks unique_capabilities validate_tasks validate_capabilities
validated-Judges d =
    let Q = IsValidated d in
    >>=-Judges (tasks_of d) (λ _. AreNew (λ t. t.id) d.tasks []) Q _ _
      (insert_tasks-Judges d.tasks []) (λ v h. h.sound.distinct_tasks)
      (λ distinct_tasks.
        >>=-Judges (declared_of d) (λ _. AreNew (λ c. c.id) d.capabilities []) Q _ _
          (insert_capabilities-Judges d.capabilities []) (λ v h. h.sound.distinct_capabilities)
          (λ distinct_capabilities.
            >>-Judges (AreSoundTasks (tasks_of d) (Map.values (tasks_of d)) []) Q _ _
              (validate_each_task-Decides (tasks_of d) (Map.values (tasks_of d)) [])
              (λ v h. h.sound.sound_tasks)
              (λ sound_tasks.
                >>-Judges (Each IsSoundCapability (Map.values (declared_of d))) Q _ _
                  (validate_each_capability-Decides (Map.values (declared_of d)))
                  (λ v h. h.sound.sound_declared)
                  (λ sound_declared.
                    >>=-Judges (capabilities_of d) (λ n. Each (Supplies n) (requirements_of d)) Q _
                      _ (materialized-Judges d) (λ v h. h.sound.supplied)
                      (λ supplied.
                        ending-Judges d distinct_tasks distinct_capabilities sound_tasks
                          sound_declared supplied)))))
