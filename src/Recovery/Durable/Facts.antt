-- ===== src/Recovery/Durable/Facts.antt =====
-- crates/workflow-recovery/src/durable.rs: the facts, the mutations that record them, and the errors.
use kernis.Base.{
  ℕ, Bool, Option, List, [], ◌∷◌, Outcome, ok, err, if◌then◌else◌, list_eq, option_eq, nat_eq,
}
use kernis.Core.{TextId, id_eq, is_blank, checked_succ}
use kernis.Recovery.Model.{
  OperationId, AttemptId, EffectIntent, DispatchRecord, OutcomeRecord, KnownEffectOutcome,
}

-- `RunId`, which wraps an `Id`.
abbrev pub RunId : Type 0
RunId = TextId

pub record WorkflowReplayIdentity : Type 0 where
  pub value : List ℕ

-- `StoreRevision`: the number in it.
abbrev pub StoreRevision : Type 0
StoreRevision = ℕ

abbrev pub initial_revision : StoreRevision
initial_revision = 0

-- `StoreRevision::checked_next`
unfoldable pub checked_next : StoreRevision → Option StoreRevision
checked_next r = checked_succ r

pub record CapabilityReplayIdentity : Type 0 where
  pub capability_id : TextId
  pub definition_identity : List ℕ

pub record AttemptAdmission : Type 0 where
  pub run_id : RunId
  pub task_id : TextId
  pub attempt_id : AttemptId
  pub operation_id : Option OperationId
  pub capabilities : List CapabilityReplayIdentity

pub record CancellationRecord : Type 0 where
  pub run_id : RunId
  pub task_id : TextId
  pub operation_id : Option OperationId
  pub attempt_id : Option AttemptId

pub record CompletionRecord : Type 0 where
  pub task_id : TextId
  pub attempt_id : AttemptId

pub record IdempotencyKey : Type 0 where
  pub value : List ℕ

pub data DurableMutation : Type 0 where
  record_workflow_replay_identity : WorkflowReplayIdentity → DurableMutation
  admit_attempt : AttemptAdmission → DurableMutation
  record_intent : EffectIntent → DurableMutation
  record_cancellation : CancellationRecord → DurableMutation
  record_dispatch : DispatchRecord → DurableMutation
  record_outcome : OutcomeRecord → DurableMutation
  record_completion : CompletionRecord → DurableMutation

pub record CommitRequest : Type 0 where
  pub run_id : RunId
  pub expected_revision : StoreRevision
  pub idempotency_key : IdempotencyKey
  pub mutations : List DurableMutation

pub record CommitLedgerEntry : Type 0 where
  pub idempotency_key : IdempotencyKey
  pub mutations : List DurableMutation
  pub revision : StoreRevision
  pub binding : ℕ

pub record PersistedRunSnapshot : Type 0 where
  pub run_id : RunId
  pub commit_ledger : List CommitLedgerEntry

-- `CommitRequest::single`
unfoldable pub single : RunId → StoreRevision → IdempotencyKey → DurableMutation → CommitRequest
single run_id expected_revision idempotency_key mutation = record {
  run_id = run_id;
  expected_revision = expected_revision;
  idempotency_key = idempotency_key;
  mutations = mutation ∷ [];
}

pub record CommitResult : Type 0 where
  pub revision : StoreRevision
  pub replayed : Bool

pub data StoreInvariant : Type 0 where
  completion_unknown_task : (task_id : TextId) → StoreInvariant
  completion_prerequisite_mismatch : (task_id : TextId) (dependency : TextId) → StoreInvariant
  completion_replay_rejected : (task_id : Option TextId) (reason : List ℕ) → StoreInvariant
  completion_without_admission : (attempt_id : AttemptId) → StoreInvariant
  completion_attempt_mismatch : (task_id : TextId) (attempt_id : AttemptId) → StoreInvariant
  completion_without_intent : (operation_id : OperationId) → StoreInvariant
  completion_without_dispatch : (attempt_id : AttemptId) → StoreInvariant
  completion_not_latest_dispatch :
      (operation_id : OperationId) (attempt_id : AttemptId) → StoreInvariant
  completion_without_successful_outcome :
      (attempt_id : AttemptId) (outcome : Option KnownEffectOutcome) → StoreInvariant
  conflicting_completion :
      (task_id : TextId) (existing_attempt_id : AttemptId) (attempted_attempt_id : AttemptId)
      → StoreInvariant
  attempt_id_reuse : (attempt_id : AttemptId) → StoreInvariant
  dispatch_without_admission : (attempt_id : AttemptId) → StoreInvariant
  dispatch_attempt_mismatch : (attempt_id : AttemptId) (operation_id : OperationId) → StoreInvariant
  outcome_without_admission : (attempt_id : AttemptId) → StoreInvariant
  outcome_without_dispatch : (attempt_id : AttemptId) → StoreInvariant
  outcome_attempt_mismatch : (attempt_id : AttemptId) (operation_id : OperationId) → StoreInvariant
  conflicting_outcome :
      (attempt_id : AttemptId) (existing : KnownEffectOutcome) (attempted : KnownEffectOutcome)
      → StoreInvariant
  task_operation_conflict :
      (task_id : TextId) (existing : OperationId) (attempted : OperationId) → StoreInvariant
  dispatch_cancelled : (task_id : TextId) → StoreInvariant
  cancellation_lineage_mismatch : (task_id : TextId) → StoreInvariant
  conflicting_cancellation : (task_id : TextId) → StoreInvariant

mutual
  pub data StoreError : Type 0 where
    run_not_found : RunId → StoreError
    run_already_exists : RunId → StoreError
    revision_conflict : (expected : StoreRevision) (actual : StoreRevision) → StoreError
    idempotency_conflict : (key : IdempotencyKey) → StoreError
    empty_idempotency_key empty_workflow_replay_identity empty_commit : StoreError
    invariant_violation : StoreInvariant → StoreError
    revision_exhausted : (current : StoreRevision) → StoreError
    backend_unavailable : StoreError
    io_failure : List ℕ → StoreError
    data_corruption : Corruption → StoreError

  -- The messages of `DataCorruption` that this file and physical.rs write, by what they say.
  pub data Corruption : Type 0 where
    empty_persisted_identity invalid_idempotency_metadata inconsistent_lineage : Corruption
    invalid_ledger invalid_binding reused_key exhausted_sequence mismatched_revision : Corruption
    invalid_header checksum_mismatch trailing_bytes backend_panicked : Corruption
    unsupported_version : ℕ → Corruption
    invalid_payload : List ℕ → Corruption
    wrong_row : (key : RunId) (found : RunId) → Corruption
    invalid_fact : StoreError → Corruption

pub data StoreErrorKind : Type 0 where
  domain_kind backend_unavailable_kind io_failure_kind data_corruption_kind : StoreErrorKind

-- `StoreError::kind`
unfoldable pub kind : StoreError → StoreErrorKind
kind backend_unavailable = backend_unavailable_kind
kind (io_failure _) = io_failure_kind
kind (data_corruption _) = data_corruption_kind
kind _ = domain_kind

-- `WorkflowReplayIdentity::new`
unfoldable pub new_identity : List ℕ → Outcome StoreError WorkflowReplayIdentity
new_identity value =
    if is_blank value then err empty_workflow_replay_identity else ok (record { value = value })

-- `IdempotencyKey::new`
unfoldable pub new_key : List ℕ → Outcome StoreError IdempotencyKey
new_key value = if is_blank value then err empty_idempotency_key else ok (record { value = value })
