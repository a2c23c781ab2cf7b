-- ===== src/Recovery/Classify.antt =====
-- crates/workflow-recovery/src/recovery.rs: what is to be done with an operation after a crash.
pub mod Safety
use kernis.Base.{
  Bool, true, false, Option, none, some, Outcome, ok, err, fault, panic, if◌then◌else◌, ◌>>=◌,
  is_none,
}
use kernis.Recovery.Model
use kernis.Recovery.Model.{
  OperationId, EffectIntent, EffectSemantics, idempotent, non_idempotent, KnownEffectOutcome,
  succeeded, failed, RecoveredEffectState, prepared, outcome_known, outcome_unknown, RecoveryAction,
  execute, retry_same_operation, complete_without_reexecution, reconcile, no_action,
  observe_failure, invariant_violation, RecoveryReason, prepared_not_dispatched,
  idempotent_outcome_unknown, non_idempotent_outcome_unknown, known_success, known_failure,
  workflow_already_completed, workflow_state_mismatch, RecoveryDecision, DispatchRecord,
  OutcomeRecord,
}
use kernis.Recovery.Journal.{
  DurableJournal, JournalError, intent, state, latest_dispatch, known_outcome,
}
use kernis.Workflow.Topology
use kernis.Workflow.Graph.{WorkflowGraph, is_completed}

unfoldable pub invariant_decision :
    OperationId → EffectIntent → RecoveredEffectState → RecoveryDecision
invariant_decision op i s = record {
  action = invariant_violation;
  reason = workflow_state_mismatch op i.task_id s;
}

abbrev pub decision : RecoveryAction → RecoveryReason → RecoveryDecision
decision a r = record { action = a; reason = r }

-- The arm for `OutcomeUnknown`.
unfoldable pub decide_unknown :
    OperationId
    → EffectIntent
    → Option DispatchRecord
    → Bool
    → Outcome JournalError RecoveryDecision
decide_unknown op i none completed = fault panic
decide_unknown op i (some d) completed =
    if completed then ok (invariant_decision op i outcome_unknown) else elim i.semantics [
      | idempotent ↦ ok (decision retry_same_operation (idempotent_outcome_unknown op d.attempt_id))
      | non_idempotent ↦ ok (decision reconcile (non_idempotent_outcome_unknown op d.attempt_id))
    ]

-- The arm for `OutcomeKnown`.
unfoldable pub decide_known :
    OperationId
    → EffectIntent
    → KnownEffectOutcome
    → Option OutcomeRecord
    → Bool
    → Outcome JournalError RecoveryDecision
decide_known op i outcome none completed = fault panic
decide_known op i succeeded (some o) true =
    ok (decision no_action (workflow_already_completed op i.task_id))
decide_known op i succeeded (some o) false =
    ok (decision complete_without_reexecution (known_success op o.attempt_id))
decide_known op i failed (some o) true = ok (invariant_decision op i (outcome_known failed))
decide_known op i failed (some o) false =
    ok (decision observe_failure (known_failure op o.attempt_id))

-- The match on the recovered state.
unfoldable pub decide :
    DurableJournal
    → OperationId
    → EffectIntent
    → RecoveredEffectState
    → Bool
    → Outcome JournalError RecoveryDecision
unfolding decide_unknown decide_known invariant_decision
decide j op i prepared completed =
    if completed
    then ok (invariant_decision op i prepared)
    else ok (decision execute (prepared_not_dispatched op))
decide j op i outcome_unknown completed = decide_unknown op i (latest_dispatch j op) completed
decide j op i (outcome_known k) completed = decide_known op i k (known_outcome j op) completed
decide j op i RecoveredEffectState.not_prepared completed =
    ok (decision invariant_violation (RecoveryReason.not_prepared op))

unfoldable pub classify_recovery :
    WorkflowGraph → DurableJournal → OperationId → Outcome JournalError RecoveryDecision
classify_recovery w j op = intent j op >>= λ i.
    if is_none (Topology.task w.topology i.task_id)
    then ok (invariant_decision op i (state j op))
    else decide j op i (state j op) (is_completed w.facts i.task_id)
