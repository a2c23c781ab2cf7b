-- ===== src/Runtime/Validation.antt =====
-- What each step of the validation of a definition decides.
use kernis.Base.{
  ◌≡◌, ◌↔◌, refl, true, false, Option, none, some, List, [], ◌∷◌, map, ok, err, fault, ◌>>=◌, ◌>>◌,
  ==_iff, arith, Bool-cases, inl, inr,
}
use kernis.Core.{TextId, id_ord, is_blank}
use kernis.BTree.Map
use kernis.BTree.Map.{Map}
use kernis.BTree.Set
use kernis.Recovery.Model.{OperationId}
use kernis.Recovery.Durable.Index.{unique}
use kernis.Runtime.Definition.{
  DefinitionIdentity, CapabilityRequirement, CapabilityDeclaration, EffectSpec, TaskDefinition,
  DefinitionError, duplicate_capability_requirement, duplicate_capability_dependency, Fallible,
  Tasks, validate_identity, validate_dependencies, validate_requirements, claim, validate_each_task,
  validate_each_capability,
}

abbrev pub Each : {A : Type 0} → (A → Type 0) → List A → Type 0
Each P [] = Unit
Each P (x ∷ xs) = P x × Each P xs

-- A test that is no panic, passes where the condition holds, and fails where it does not.
abbrev pub Decides : Type 0 → Fallible (Unit {0}) → Type 0
Decides P (ok _) = P
Decides P (err _) = ¬ P
Decides P (fault _) = ⊥

pub Decides-map :
    (P Q : Type 0) (r : Fallible (Unit {0})) → (P → Q) → (Q → P) → Decides P r → Decides Q r
Decides-map P Q (ok _) f g h = f h
Decides-map P Q (err _) f g h = λ q. h (g q)
Decides-map P Q (fault _) f g h = absurd h

>>-Decides :
    (P Q : Type 0) (r s : Fallible (Unit {0}))
    → Decides P r
    → (P → Decides Q s)
    → Decides (P × Q) (r >> s)
>>-Decides P Q (ok _) s h k = Decides-map Q (P × Q) s (λ q. (h, q)) (λ q. q.1) (k h)
>>-Decides P Q (err _) s h k = λ q. h q.0
>>-Decides P Q (fault _) s h k = absurd h

-- The same where the second step has a result that others go on with.
>>=-Decides :
    {A : Type 0} (P Q : Type 0) (r : Fallible (Unit {0})) (s : Fallible A)
    (next : A → Fallible (Unit {0}))
    → Decides P r
    → Decides Q (s >>= next)
    → Decides (P × Q) (r >> s >>= next)
>>=-Decides P Q (ok _) s next h k = Decides-map Q (P × Q) (s >>= next) (λ q. (h, q)) (λ q. q.1) k
>>=-Decides P Q (err _) s next h k = λ q. h q.0
>>=-Decides P Q (fault _) s next h k = absurd h

-- The names of a list are distinct, and none of them was seen before.
abbrev pub IsFresh : List TextId → List TextId → Type 0
IsFresh ids seen =
    (unique ids ≡ true) × ((d : TextId) → Set.contains ids d ≡ true → Set.contains seen d ≡ false)

IsFresh-insert :
    (d : TextId) (ds seen : List TextId)
    → Set.contains seen d ≡ false
    → IsFresh ds (Set.insert seen d) ↔ IsFresh (d ∷ ds) seen
unfolding Set.contains
IsFresh-insert d ds seen new = (
  λ h. (
    ground (
      arith,
      h.0,
      h.1 d,
      Set.contains-insert seen d d,
      ==_iff d d,
      Bool-cases (Set.contains ds d),
    ),
    λ e k.
        ground
          (arith, h.1 e, Set.contains-insert seen d e, ==_iff d e, Bool-cases (Set.contains ds e)),
  ),
  λ h. (
    ground (arith, h.0),
    λ e k. ground (arith, h.0, h.1 e, Set.contains-insert seen d e, ==_iff d e),
  ),
)

IsFresh-head :
    (d : TextId) (ds seen : List TextId) → Set.contains seen d ≡ true → ¬ IsFresh (d ∷ ds) seen
unfolding Set.contains
IsFresh-head d ds seen found h = ground (arith, h.1 d, ==_iff d d)

-- The tasks that others depend on are distinct, new and known.
abbrev AreKnown : Tasks → List TextId → List TextId → Type 0
AreKnown tasks ds seen =
    IsFresh ds seen × ((d : TextId) → Set.contains ds d ≡ true → Map.contains_key tasks d ≡ true)

validate_dependencies-Decides :
    (tasks : Tasks) (task_id : TextId) (ds seen : List TextId)
    → Decides (AreKnown tasks ds seen) (validate_dependencies tasks task_id ds seen)
unfolding validate_dependencies Set.contains
validate_dependencies-Decides tasks task_id [] seen = ((refl, λ d k. cc), λ d k. cc)
validate_dependencies-Decides tasks task_id (d ∷ ds) seen =
    elim (Bool-cases (Set.contains seen d)) [
      | inl found ↦ rw (found) (λ h. IsFresh-head d ds seen found h.0)
      | inr new ↦ elim (Bool-cases (Map.contains_key tasks d)) [
        | inl known ↦
            let more =
              Decides-map (AreKnown tasks ds (Set.insert seen d)) (AreKnown tasks (d ∷ ds) seen)
                (validate_dependencies tasks task_id ds (Set.insert seen d))
                (λ h. (
                  (IsFresh-insert d ds seen new).0 h.0,
                  λ e k. ground (arith, h.1 e, known, ==_iff d e, Bool-cases (Set.contains ds e)),
                ))
                (λ h. ((IsFresh-insert d ds seen new).1 h.0, λ e k. ground (arith, h.1 e)))
                (validate_dependencies-Decides tasks task_id ds (Set.insert seen d)) in
            rw (new, known) more
        | inr unknown ↦ rw (new, unknown) (λ h. ground (arith, h.1 d, ==_iff d d))
      ]
    ]

abbrev pub IsFilled : CapabilityRequirement → Type 0
IsFilled r = is_blank r.definition_identity.value ≡ false

-- Each requirement names a capability of its own, with an identity that is not blank.
abbrev pub AreRequired : List CapabilityRequirement → List TextId → Type 0
AreRequired rs seen = IsFresh (map (λ r. r.capability_id) rs) seen × Each IsFilled rs

validate_identity-Decides :
    (i : DefinitionIdentity) → Decides (is_blank i.value ≡ false) (validate_identity i)
unfolding validate_identity
validate_identity-Decides i = elim (Bool-cases (is_blank i.value)) [
  | inl blank ↦ rw (blank) (λ h. cc)
  | inr filled ↦ rw (filled) refl
]

validate_requirements-Decides :
    (duplicate : TextId → DefinitionError) (rs : List CapabilityRequirement) (seen : List TextId)
    → Decides (AreRequired rs seen) (validate_requirements duplicate rs seen)
unfolding validate_requirements Set.contains
validate_requirements-Decides duplicate [] seen = ((refl, λ d k. cc), tt)
validate_requirements-Decides duplicate (r ∷ rs) seen =
    elim (Bool-cases (Set.contains seen r.capability_id)) [
      | inl found ↦ rw (found) (
          Decides-map (IsFilled r × ⊥) _ _ (λ h. absurd h.1)
            (λ h.
              absurd (IsFresh-head r.capability_id (map (λ q. q.capability_id) rs) seen found h.0))
            (>>-Decides (IsFilled r) ⊥ _ (err (duplicate r.capability_id))
              (validate_identity-Decides r.definition_identity) (λ _ no. no)))
      | inr new ↦
          let fresh = IsFresh-insert r.capability_id (map (λ q. q.capability_id) rs) seen new in
          rw (new) (
            Decides-map (IsFilled r × AreRequired rs (Set.insert seen r.capability_id))
              (AreRequired (r ∷ rs) seen) _ (λ h. (fresh.0 h.1.0, (h.0, h.1.1)))
              (λ h. (h.1.0, (fresh.1 h.0, h.1.1)))
              (>>-Decides (IsFilled r) (AreRequired rs (Set.insert seen r.capability_id)) _ _
                (validate_identity-Decides r.definition_identity)
                (λ _.
                  validate_requirements-Decides duplicate rs (Set.insert seen r.capability_id))))
    ]

abbrev pub with_claim : Option EffectSpec → List OperationId → List OperationId
with_claim none ids = ids
with_claim (some effect) ids = effect.operation_id ∷ ids

-- The operations that tasks claim.
abbrev pub operations_of : List TaskDefinition → List OperationId
operations_of [] = []
operations_of (t ∷ ts) = with_claim t.effect (operations_of ts)

-- A task depends on known tasks, on each once, and its requirements are in order.
abbrev pub IsSoundTask : Tasks → TaskDefinition → Type 0
IsSoundTask tasks t = AreKnown tasks t.dependencies [] × AreRequired t.required_capabilities []

-- The tasks are sound, and claim operations of their own.
abbrev pub AreSoundTasks : Tasks → List TaskDefinition → List OperationId → Type 0
AreSoundTasks tasks ts operations =
    Each (IsSoundTask tasks) ts × IsFresh (operations_of ts) operations

claim-Decides :
    (tasks : Tasks) (effect : Option EffectSpec) (ts : List TaskDefinition)
    (operations : List OperationId)
    → ((next : List OperationId)
        → Decides (AreSoundTasks tasks ts next) (validate_each_task tasks ts next))
    → Decides
        (Each (IsSoundTask tasks) ts × IsFresh (with_claim effect (operations_of ts)) operations)
        (claim effect operations >>= validate_each_task tasks ts)
claim-Decides tasks none ts operations each = each operations
claim-Decides tasks (some effect) ts operations each =
    let op = effect.operation_id in
    elim (Bool-cases (Set.contains operations op)) [
      | inl found ↦ rw (found) (λ h. IsFresh-head op (operations_of ts) operations found h.1)
      | inr new ↦
          let fresh = IsFresh-insert op (operations_of ts) operations new in
          rw (new) (
            Decides-map (AreSoundTasks tasks ts (Set.insert operations op))
              (Each (IsSoundTask tasks) ts × IsFresh (op ∷ operations_of ts) operations) _
              (λ h. (h.0, fresh.0 h.1)) (λ h. (h.0, fresh.1 h.1)) (each (Set.insert operations op)))
    ]

pub validate_each_task-Decides :
    (tasks : Tasks) (ts : List TaskDefinition) (operations : List OperationId)
    → Decides (AreSoundTasks tasks ts operations) (validate_each_task tasks ts operations)
unfolding validate_each_task Set.contains
validate_each_task-Decides tasks [] operations = (tt, (refl, λ d k. cc))
validate_each_task-Decides tasks (t ∷ ts) operations =
    let rest =
      Each (IsSoundTask tasks) ts × IsFresh (with_claim t.effect (operations_of ts)) operations in
    Decides-map (IsSoundTask tasks t × rest) (AreSoundTasks tasks (t ∷ ts) operations) _
      (λ h. ((h.0, h.1.0), h.1.1)) (λ h. (h.0.0, (h.0.1, h.1)))
      (>>=-Decides (IsSoundTask tasks t) rest _ (claim t.effect operations)
        (validate_each_task tasks ts)
        (>>-Decides (AreKnown tasks t.dependencies []) (AreRequired t.required_capabilities []) _ _
          (validate_dependencies-Decides tasks t.id t.dependencies [])
          (λ _.
            validate_requirements-Decides (duplicate_capability_requirement t.id)
              t.required_capabilities []))
        (claim-Decides tasks t.effect ts operations (validate_each_task-Decides tasks ts)))

-- A capability has an identity that is not blank, and its dependencies are in order.
abbrev pub IsSoundCapability : CapabilityDeclaration → Type 0
IsSoundCapability c = (is_blank c.definition_identity.value ≡ false) × AreRequired c.dependencies []

pub validate_each_capability-Decides :
    (cs : List CapabilityDeclaration)
    → Decides (Each IsSoundCapability cs) (validate_each_capability cs)
unfolding validate_each_capability
validate_each_capability-Decides [] = tt
validate_each_capability-Decides (c ∷ cs) =
    >>-Decides (IsSoundCapability c) (Each IsSoundCapability cs) _ (validate_each_capability cs)
      (>>-Decides (is_blank c.definition_identity.value ≡ false) (AreRequired c.dependencies []) _ _
        (validate_identity-Decides c.definition_identity)
        (λ _.
          validate_requirements-Decides (duplicate_capability_dependency c.id) c.dependencies []))
      (λ _. validate_each_capability-Decides cs)
