-- ===== src/Recovery/Model.antt =====
-- crates/workflow-recovery/src/model.rs: the typed facts and decisions of the crash boundary.
use kernis.Core.{TextId}

-- `OperationId` and `AttemptId`, which wrap an `Id`.
abbrev pub OperationId : Type 0
OperationId = TextId

abbrev pub AttemptId : Type 0
AttemptId = TextId

pub data EffectSemantics : Type 0 where
  idempotent non_idempotent : EffectSemantics

pub record EffectIntent : Type 0 where
  pub task_id : TextId
  pub operation_id : OperationId
  pub semantics : EffectSemantics

pub record DispatchRecord : Type 0 where
  pub operation_id : OperationId
  pub attempt_id : AttemptId

pub data KnownEffectOutcome : Type 0 where
  succeeded failed : KnownEffectOutcome

pub record OutcomeRecord : Type 0 where
  pub operation_id : OperationId
  pub attempt_id : AttemptId
  pub outcome : KnownEffectOutcome

pub data RecoveredEffectState : Type 0 where
  not_prepared prepared outcome_unknown : RecoveredEffectState
  outcome_known : KnownEffectOutcome → RecoveredEffectState

pub data RecoveryAction : Type 0 where
  execute retry_same_operation complete_without_reexecution reconcile no_action observe_failure :
      RecoveryAction
  invariant_violation : RecoveryAction

pub data RecoveryReason : Type 0 where
  prepared_not_dispatched : OperationId → RecoveryReason
  idempotent_outcome_unknown non_idempotent_outcome_unknown known_success known_failure :
      OperationId → AttemptId → RecoveryReason
  workflow_already_completed : OperationId → TextId → RecoveryReason
  workflow_state_mismatch : OperationId → TextId → RecoveredEffectState → RecoveryReason
  not_prepared : OperationId → RecoveryReason

pub record RecoveryDecision : Type 0 where
  pub action : RecoveryAction
  pub reason : RecoveryReason
