-- ===== src/Recovery/Durable/Complete.antt =====
-- `apply_mutation` accepts every mutation that is a step, and writes what the step says.
use kernis.Base.{
  ◌≡◌, refl, true, Option, none, some, arith, ==_iff, Option-cases, inl, inr, ok, ◌↔◌,
}
use kernis.Core.{id_ord}
use kernis.Recovery.Model.{OperationId}
use kernis.Recovery.Durable.Facts.{CancellationRecord, CompletionRecord, DurableMutation}
use kernis.Recovery.Durable.Same.{
  same_outcome_iff, same_intent_iff, same_cancellation_iff, same_completion_iff,
}
use kernis.Recovery.Durable.State.{DurableRunState}
use kernis.Recovery.Durable.Apply.{
  apply_identity, apply_admission, apply_intent, apply_cancellation, admit_dispatch, apply_dispatch,
  settle_outcome, apply_outcome, missing_evidence, settle_completion, apply_completion, lacks,
  apply_mutation, operation_lineage, attempt_lineage, same_operation,
}
use kernis.Recovery.Durable.Step
use kernis.Recovery.Durable.Step.{Step}
use kernis.Recovery.Durable.Sound.{apply_mutation-Step}

module _ (s : DurableRunState) where
  operation_lineage-true :
      (c : CancellationRecord) → Step.NamesOperation s c → operation_lineage s c ≡ true
  operation_lineage-true c h = elim (Option-cases c.operation_id) [
    | inl e ↦ ground arith
    | inr (op, e) ↦ ground (arith, h op e, ==_iff op op)
  ]

  same_operation_refl : (o : Option OperationId) → same_operation o o ≡ true
  same_operation_refl none = refl
  same_operation_refl (some op) = ground (arith, ==_iff op op)

  attempt_lineage-true :
      (c : CancellationRecord) → Step.NamesAttempt s c → attempt_lineage s c ≡ true
  attempt_lineage-true c h = elim (Option-cases c.attempt_id) [
    | inl e ↦ ground arith
    | inr (a, e) ↦
        let (x, k, task, operation) = h a e in
        ground (arith, ==_iff x.task_id c.task_id, same_operation_refl c.operation_id)
  ]

  missing_evidence-none :
      (c : CompletionRecord) (op : OperationId)
      → Step.HasSucceeded s c.attempt_id op
      → Step.IsLatest s c.attempt_id op
      → missing_evidence s c op ≡ none
  unfolding missing_evidence
  missing_evidence-none c op h (latest, k, l) = ground (
    arith,
    h.intended,
    h.dispatched,
    h.target,
    h.known,
    h.success,
    ==_iff h.dispatch.operation_id op,
    ==_iff latest.attempt_id c.attempt_id,
  )

  lacks-none :
      (c : CompletionRecord) (h : Step.HasEvidence s c)
      → Step.AdmitsLatest s c h.admission
      → lacks s c h.admission.operation_id ≡ none
  lacks-none c h k = elim (Option-cases h.admission.operation_id) [
    | inl e ↦ ground arith
    | inr (op, e) ↦ ground (arith, missing_evidence-none c op (h.effect op e) (k op e))
  ]

  pub Step-apply_mutation :
      (m : DurableMutation) (next : DurableRunState) → Step s m next → apply_mutation s m ≡ ok next
  unfolding apply_mutation apply_identity apply_admission apply_intent apply_cancellation
      apply_dispatch admit_dispatch apply_outcome settle_outcome apply_completion settle_completion
  Step-apply_mutation _ _ (Step.identified identity h) = ground arith
  Step-apply_mutation _ _ (Step.admitted x h k) = ground (arith, ==_iff x.run_id s.run_id)
  Step-apply_mutation _ _ (Step.intent_kept i h) = ground (arith, same_intent_iff i i)
  Step-apply_mutation _ _ (Step.intended i h k) = ground arith
  Step-apply_mutation _ _ (Step.cancellation_kept c h k) =
      ground (arith, ==_iff c.run_id s.run_id, same_cancellation_iff c c)
  Step-apply_mutation _ _ (Step.cancelled c h k op a) =
      ground
        (arith, ==_iff c.run_id s.run_id, operation_lineage-true c op, attempt_lineage-true c a)
  Step-apply_mutation _ _ (Step.dispatched d h k l) = ground (
    arith,
    h.intended,
    h.admitted,
    h.operation,
    h.task,
    ==_iff h.intent.task_id h.admission.task_id,
    ==_iff d.operation_id d.operation_id,
  )
  Step-apply_mutation _ _ (Step.outcome_kept o existing h k l) = ground (
    arith,
    h.admitted,
    h.dispatched,
    h.operation,
    h.target,
    ==_iff h.dispatch.operation_id o.operation_id,
    ==_iff o.operation_id o.operation_id,
    same_outcome_iff existing.outcome o.outcome,
  )
  Step-apply_mutation _ _ (Step.settled o h k) = ground (
    arith,
    h.admitted,
    h.dispatched,
    h.operation,
    h.target,
    ==_iff h.dispatch.operation_id o.operation_id,
    ==_iff o.operation_id o.operation_id,
  )
  Step-apply_mutation _ _ (Step.completion_kept c h k l) = ground (
    arith,
    h.admitted,
    h.task,
    ==_iff h.admission.task_id c.task_id,
    lacks-none c h k,
    same_completion_iff c c,
  )
  Step-apply_mutation _ _ (Step.completed c h k l) =
      ground (arith, h.admitted, h.task, ==_iff h.admission.task_id c.task_id, lacks-none c h k)

  -- The detailed handler and the relation of steps are the same: a mutation is accepted with a next
  -- state exactly where it is a step to that state. So an attempt is admitted once and in its own
  -- run, an intent has a task of its own, a dispatch needs the intent and the admission and comes
  -- before any cancellation of its task, an outcome needs the dispatch, and a completion of an
  -- attempt with an operation needs its latest dispatch to be known to have succeeded.
  pub apply_mutation-iff-Step :
      (m : DurableMutation) (next : DurableRunState)
      → (apply_mutation s m ≡ ok next) ↔ Step s m next
  apply_mutation-iff-Step m next = (apply_mutation-Step s m next, Step-apply_mutation m next)
