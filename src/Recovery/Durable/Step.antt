-- ===== src/Recovery/Durable/Step.antt =====
-- crates/workflow-recovery/src/durable.rs: the mutations that `apply_mutation` accepts, as a relation
-- between the states before and after.
use kernis.Base.{◌≡◌, true, false, none, some, [], ◌∷◌, ◌++◌}
use kernis.Core.{id_ord, is_blank}
use kernis.BTree.Map
use kernis.BTree.Map.{Map}
use kernis.Recovery.Model.{
  OperationId, AttemptId, EffectIntent, DispatchRecord, OutcomeRecord, succeeded,
}
use kernis.Recovery.Durable.Facts.{
  WorkflowReplayIdentity, AttemptAdmission, CancellationRecord, CompletionRecord, DurableMutation,
  record_workflow_replay_identity, admit_attempt, record_intent, record_cancellation,
  record_dispatch, record_outcome, record_completion,
}
use kernis.Recovery.Durable.State.{DurableRunState, latest_dispatch}

-- The state with one more fact.
abbrev pub with_identity : DurableRunState → WorkflowReplayIdentity → DurableRunState
with_identity s identity = record s { workflow_replay_identity = some identity }

abbrev pub with_admission : DurableRunState → AttemptAdmission → DurableRunState
with_admission s x = record s {
  admissions = Map.insert s.admissions x.attempt_id x;
  admission_history = s.admission_history ++ x ∷ [];
}

abbrev pub with_intent : DurableRunState → EffectIntent → DurableRunState
with_intent s i = record s {
  task_operations = Map.insert s.task_operations i.task_id i.operation_id;
  intents = Map.insert s.intents i.operation_id i;
}

abbrev pub with_cancellation : DurableRunState → CancellationRecord → DurableRunState
with_cancellation s c = record s { cancellations = Map.insert s.cancellations c.task_id c }

abbrev pub with_dispatch : DurableRunState → DispatchRecord → DurableRunState
with_dispatch s d = record s {
  dispatches = Map.insert s.dispatches d.attempt_id d;
  dispatch_history = s.dispatch_history ++ d ∷ [];
}

abbrev pub with_outcome : DurableRunState → OutcomeRecord → DurableRunState
with_outcome s o = record s {
  outcomes = Map.insert s.outcomes o.attempt_id o;
  outcome_history = s.outcome_history ++ o ∷ [];
}

abbrev pub with_completion : DurableRunState → CompletionRecord → DurableRunState
with_completion s c = record s {
  completions = Map.insert s.completions c.task_id c;
  completion_history = s.completion_history ++ c ∷ [];
}

-- A cancellation names no operation, or that of its task.
abbrev pub NamesOperation : DurableRunState → CancellationRecord → Type 0
NamesOperation s c =
    (op : OperationId) → c.operation_id ≡ some op → Map.get s.task_operations c.task_id ≡ some op

-- A cancellation names no attempt, or one that was admitted for its task and its operation.
abbrev pub NamesAttempt : DurableRunState → CancellationRecord → Type 0
NamesAttempt s c =
    (a : AttemptId)
    → c.attempt_id ≡ some a
    → (x : AttemptAdmission) × (Map.get s.admissions a ≡ some x)
      × (x.task_id ≡ c.task_id)
      × (x.operation_id ≡ c.operation_id)

-- The attempt of a dispatch is admitted for its operation, whose intent is for the same task.
pub record IsAdmitted (s : DurableRunState) (d : DispatchRecord) : Type 0 where
  pub intent : EffectIntent
  pub admission : AttemptAdmission
  pub intended : Map.get s.intents d.operation_id ≡ some intent
  pub admitted : Map.get s.admissions d.attempt_id ≡ some admission
  pub operation : admission.operation_id ≡ some d.operation_id
  pub task : intent.task_id ≡ admission.task_id

-- The attempt of an outcome is admitted and dispatched for its operation.
pub record IsDispatched (s : DurableRunState) (o : OutcomeRecord) : Type 0 where
  pub admission : AttemptAdmission
  pub dispatch : DispatchRecord
  pub admitted : Map.get s.admissions o.attempt_id ≡ some admission
  pub dispatched : Map.get s.dispatches o.attempt_id ≡ some dispatch
  pub operation : admission.operation_id ≡ some o.operation_id
  pub target : dispatch.operation_id ≡ o.operation_id

-- The attempt was dispatched for the operation, and it is known to have succeeded.
pub record HasSucceeded (s : DurableRunState) (a : AttemptId) (op : OperationId) : Type 0 where
  pub dispatch : DispatchRecord
  pub outcome : OutcomeRecord
  pub intended : Map.contains_key s.intents op ≡ true
  pub dispatched : Map.get s.dispatches a ≡ some dispatch
  pub target : dispatch.operation_id ≡ op
  pub known : Map.get s.outcomes a ≡ some outcome
  pub success : outcome.outcome ≡ succeeded

-- No later attempt of the operation was dispatched.
abbrev pub IsLatest : DurableRunState → AttemptId → OperationId → Type 0
IsLatest s a op = (d : DispatchRecord) × (latest_dispatch s op ≡ some d) × (d.attempt_id ≡ a)

-- The evidence for a completion: its attempt is admitted for its task and, where it is one of an
-- operation, that is known to have succeeded.
pub record HasEvidence (s : DurableRunState) (c : CompletionRecord) : Type 0 where
  pub admission : AttemptAdmission
  pub admitted : Map.get s.admissions c.attempt_id ≡ some admission
  pub task : admission.task_id ≡ c.task_id
  pub effect :
      (op : OperationId) → admission.operation_id ≡ some op → HasSucceeded s c.attempt_id op

abbrev pub AdmitsLatest : DurableRunState → CompletionRecord → AttemptAdmission → Type 0
AdmitsLatest s c x = (op : OperationId) → x.operation_id ≡ some op → IsLatest s c.attempt_id op

pub data Step (s : DurableRunState) : DurableMutation → DurableRunState → Type 0 where
  identified :
      (identity : WorkflowReplayIdentity)
      → is_blank identity.value ≡ false
      → Step s (record_workflow_replay_identity identity) (with_identity s identity)
  admitted :
      (x : AttemptAdmission)
      → x.run_id ≡ s.run_id
      → Map.get s.admissions x.attempt_id ≡ none
      → Step s (admit_attempt x) (with_admission s x)
  intent_kept :
      (i : EffectIntent) → Map.get s.intents i.operation_id ≡ some i → Step s (record_intent i) s
  intended :
      (i : EffectIntent)
      → Map.get s.intents i.operation_id ≡ none
      → Map.get s.task_operations i.task_id ≡ none
      → Step s (record_intent i) (with_intent s i)
  cancellation_kept :
      (c : CancellationRecord)
      → c.run_id ≡ s.run_id
      → Map.get s.cancellations c.task_id ≡ some c
      → Step s (record_cancellation c) s
  cancelled :
      (c : CancellationRecord)
      → c.run_id ≡ s.run_id
      → Map.get s.cancellations c.task_id ≡ none
      → NamesOperation s c
      → NamesAttempt s c
      → Step s (record_cancellation c) (with_cancellation s c)
  dispatched :
      (d : DispatchRecord) (h : IsAdmitted s d)
      → Map.get s.cancellations h.admission.task_id ≡ none
      → Map.get s.dispatches d.attempt_id ≡ none
      → Step s (record_dispatch d) (with_dispatch s d)
  outcome_kept :
      (o : OutcomeRecord) (existing : OutcomeRecord)
      → IsDispatched s o
      → Map.get s.outcomes o.attempt_id ≡ some existing
      → existing.outcome ≡ o.outcome
      → Step s (record_outcome o) s
  settled :
      (o : OutcomeRecord)
      → IsDispatched s o
      → Map.get s.outcomes o.attempt_id ≡ none
      → Step s (record_outcome o) (with_outcome s o)
  completion_kept :
      (c : CompletionRecord) (h : HasEvidence s c)
      → AdmitsLatest s c h.admission
      → Map.get s.completions c.task_id ≡ some c
      → Step s (record_completion c) s
  completed :
      (c : CompletionRecord) (h : HasEvidence s c)
      → AdmitsLatest s c h.admission
      → Map.get s.completions c.task_id ≡ none
      → Step s (record_completion c) (with_completion s c)
