-- ===== src/Recovery/Durable/Same.antt =====
-- crates/workflow-recovery/src/durable.rs and model.rs: the derived `==` of facts and mutations, and
-- the order of idempotency keys.
use Prim.Native.Nat.{Ordering}
use kernis.Base.{
  ◌≡◌, ap, ◌↔◌, Bool, true, false, ◌&&◌, arith, Ord, IsLawful, Eq, cmp_text, cmp_text-IsLawful,
  list_eq, option_eq, nat_eq, ◌==◌, ==_iff,
}
use kernis.Core.{id_eq}
use kernis.Recovery.Model.{
  EffectIntent, EffectSemantics, idempotent, non_idempotent, DispatchRecord, OutcomeRecord,
  KnownEffectOutcome, succeeded, failed,
}
use kernis.Recovery.Journal.{same_outcome}
use kernis.Recovery.Durable.Facts.{
  WorkflowReplayIdentity, CapabilityReplayIdentity, AttemptAdmission, CancellationRecord,
  CompletionRecord, IdempotencyKey, DurableMutation, record_workflow_replay_identity, admit_attempt,
  record_intent, record_cancellation, record_dispatch, record_outcome, record_completion,
}

abbrev pub cmp_key : IdempotencyKey → IdempotencyKey → Ordering
cmp_key a b = cmp_text a.value b.value

pub cmp_key-IsLawful : IsLawful cmp_key
cmp_key-IsLawful = record {
  lt_trans = λ a b c h k. cmp_text-IsLawful.lt_trans a.value b.value c.value h k;
  lt_of_gt = λ a b h. cmp_text-IsLawful.lt_of_gt a.value b.value h;
  eq_of_cmp =
      λ a b h. ap (λ v. record { value = v }) (cmp_text-IsLawful.eq_of_cmp a.value b.value h);
  cmp_refl = λ a. cmp_text-IsLawful.cmp_refl a.value;
}

instance unfoldable pub key_ord : Ord IdempotencyKey
key_ord = record { cmp = cmp_key; lawful = cmp_key-IsLawful }

abbrev pub same {ℓ} : {A : Type ℓ} ⦃e : Eq A⦄ → A → A → Bool
same ⦃e⦄ a b = e.same a b

pub same_iff {ℓ} : {A : Type ℓ} ⦃e : Eq A⦄ (a b : A) → (same a b ≡ true) ↔ (a ≡ b)
same_iff ⦃e⦄ a b = e.same_iff a b

abbrev pub same_semantics : EffectSemantics → EffectSemantics → Bool
same_semantics idempotent idempotent = true
same_semantics non_idempotent non_idempotent = true
same_semantics _ _ = false

pub same_outcome_iff : (a b : KnownEffectOutcome) → (same_outcome a b ≡ true) ↔ (a ≡ b)
same_outcome_iff succeeded succeeded = ground arith
same_outcome_iff succeeded failed = ground arith
same_outcome_iff failed succeeded = ground arith
same_outcome_iff failed failed = ground arith

pub same_semantics_iff : (a b : EffectSemantics) → (same_semantics a b ≡ true) ↔ (a ≡ b)
same_semantics_iff idempotent idempotent = ground arith
same_semantics_iff idempotent non_idempotent = ground arith
same_semantics_iff non_idempotent idempotent = ground arith
same_semantics_iff non_idempotent non_idempotent = ground arith

abbrev pub same_identity : WorkflowReplayIdentity → WorkflowReplayIdentity → Bool
same_identity a b = same a.value b.value

pub same_identity_iff : (a b : WorkflowReplayIdentity) → (same_identity a b ≡ true) ↔ (a ≡ b)
same_identity_iff a b = ground (arith, same_iff a.value b.value)

abbrev pub same_capability : CapabilityReplayIdentity → CapabilityReplayIdentity → Bool
same_capability a b =
    same a.capability_id b.capability_id && same a.definition_identity b.definition_identity

pub same_capability_iff : (a b : CapabilityReplayIdentity) → (same_capability a b ≡ true) ↔ (a ≡ b)
same_capability_iff a b = ground (
  arith,
  same_iff a.capability_id b.capability_id,
  same_iff a.definition_identity b.definition_identity,
)

instance abbrev capability_eq : Eq CapabilityReplayIdentity
capability_eq = record { same = same_capability; same_iff = same_capability_iff }

abbrev pub same_admission : AttemptAdmission → AttemptAdmission → Bool
same_admission a b =
    same a.run_id b.run_id
    && same a.task_id b.task_id
    && same a.attempt_id b.attempt_id
    && same a.operation_id b.operation_id
    && same a.capabilities b.capabilities

pub same_admission_iff : (a b : AttemptAdmission) → (same_admission a b ≡ true) ↔ (a ≡ b)
same_admission_iff a b = ground (
  arith,
  same_iff a.run_id b.run_id,
  same_iff a.task_id b.task_id,
  same_iff a.attempt_id b.attempt_id,
  same_iff a.operation_id b.operation_id,
  same_iff a.capabilities b.capabilities,
)

abbrev pub same_intent : EffectIntent → EffectIntent → Bool
same_intent a b =
    same a.task_id b.task_id
    && same a.operation_id b.operation_id
    && same_semantics a.semantics b.semantics

pub same_intent_iff : (a b : EffectIntent) → (same_intent a b ≡ true) ↔ (a ≡ b)
same_intent_iff a b = ground (
  arith,
  same_iff a.task_id b.task_id,
  same_iff a.operation_id b.operation_id,
  same_semantics_iff a.semantics b.semantics,
)

abbrev pub same_cancellation : CancellationRecord → CancellationRecord → Bool
same_cancellation a b =
    same a.run_id b.run_id
    && same a.task_id b.task_id
    && same a.operation_id b.operation_id
    && same a.attempt_id b.attempt_id

pub same_cancellation_iff : (a b : CancellationRecord) → (same_cancellation a b ≡ true) ↔ (a ≡ b)
same_cancellation_iff a b = ground (
  arith,
  same_iff a.run_id b.run_id,
  same_iff a.task_id b.task_id,
  same_iff a.operation_id b.operation_id,
  same_iff a.attempt_id b.attempt_id,
)

abbrev pub same_dispatch : DispatchRecord → DispatchRecord → Bool
same_dispatch a b = same a.operation_id b.operation_id && same a.attempt_id b.attempt_id

pub same_dispatch_iff : (a b : DispatchRecord) → (same_dispatch a b ≡ true) ↔ (a ≡ b)
same_dispatch_iff a b =
    ground (arith, same_iff a.operation_id b.operation_id, same_iff a.attempt_id b.attempt_id)

abbrev pub same_result : OutcomeRecord → OutcomeRecord → Bool
same_result a b =
    same a.operation_id b.operation_id
    && same a.attempt_id b.attempt_id
    && same_outcome a.outcome b.outcome

pub same_result_iff : (a b : OutcomeRecord) → (same_result a b ≡ true) ↔ (a ≡ b)
same_result_iff a b = ground (
  arith,
  same_iff a.operation_id b.operation_id,
  same_iff a.attempt_id b.attempt_id,
  same_outcome_iff a.outcome b.outcome,
)

abbrev pub same_completion : CompletionRecord → CompletionRecord → Bool
same_completion a b = same a.task_id b.task_id && same a.attempt_id b.attempt_id

pub same_completion_iff : (a b : CompletionRecord) → (same_completion a b ≡ true) ↔ (a ≡ b)
same_completion_iff a b =
    ground (arith, same_iff a.task_id b.task_id, same_iff a.attempt_id b.attempt_id)

abbrev pub same_mutation : DurableMutation → DurableMutation → Bool
same_mutation (record_workflow_replay_identity a) (record_workflow_replay_identity b) =
    same_identity a b
same_mutation (admit_attempt a) (admit_attempt b) = same_admission a b
same_mutation (record_intent a) (record_intent b) = same_intent a b
same_mutation (record_cancellation a) (record_cancellation b) = same_cancellation a b
same_mutation (record_dispatch a) (record_dispatch b) = same_dispatch a b
same_mutation (record_outcome a) (record_outcome b) = same_result a b
same_mutation (record_completion a) (record_completion b) = same_completion a b
same_mutation _ _ = false

pub same_mutation_iff : (a b : DurableMutation) → (same_mutation a b ≡ true) ↔ (a ≡ b)
same_mutation_iff (record_workflow_replay_identity a) (record_workflow_replay_identity b) =
    ground (arith, same_identity_iff a b)
same_mutation_iff (admit_attempt a) (admit_attempt b) = ground (arith, same_admission_iff a b)
same_mutation_iff (record_intent a) (record_intent b) = ground (arith, same_intent_iff a b)
same_mutation_iff (record_cancellation a) (record_cancellation b) =
    ground (arith, same_cancellation_iff a b)
same_mutation_iff (record_dispatch a) (record_dispatch b) = ground (arith, same_dispatch_iff a b)
same_mutation_iff (record_outcome a) (record_outcome b) = ground (arith, same_result_iff a b)
same_mutation_iff (record_completion a) (record_completion b) =
    ground (arith, same_completion_iff a b)
same_mutation_iff _ _ = ground arith

instance abbrev pub mutation_eq : Eq DurableMutation
mutation_eq = record { same = same_mutation; same_iff = same_mutation_iff }

instance abbrev pub identity_eq : Eq WorkflowReplayIdentity
identity_eq = record { same = same_identity; same_iff = same_identity_iff }

instance abbrev pub admission_eq : Eq AttemptAdmission
admission_eq = record { same = same_admission; same_iff = same_admission_iff }

instance abbrev pub intent_eq : Eq EffectIntent
intent_eq = record { same = same_intent; same_iff = same_intent_iff }

instance abbrev pub cancellation_eq : Eq CancellationRecord
cancellation_eq = record { same = same_cancellation; same_iff = same_cancellation_iff }

instance abbrev pub dispatch_eq : Eq DispatchRecord
dispatch_eq = record { same = same_dispatch; same_iff = same_dispatch_iff }

instance abbrev pub result_eq : Eq OutcomeRecord
result_eq = record { same = same_result; same_iff = same_result_iff }

instance abbrev pub completion_eq : Eq CompletionRecord
completion_eq = record { same = same_completion; same_iff = same_completion_iff }

instance abbrev pub key_eq : Eq IdempotencyKey
key_eq = record { same = λ a b. a == b; same_iff = λ a b. ==_iff a b }
