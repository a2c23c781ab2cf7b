-- ===== src/Recovery/Durable/State.antt =====
-- crates/workflow-recovery/src/durable.rs: `DurableRunState` and its readers.
use kernis.Base.{
  Bool, true, false, not, ◌&&◌, Option, none, some, List, [], ◌∷◌, if◌then◌else◌, ◌==◌, ◌=ℕ◌,
  is_none,
}
use kernis.Core.{TextId, id_ord}
use kernis.BTree.Map
use kernis.BTree.Map.{Map}
use kernis.Recovery.Model.{
  OperationId, AttemptId, EffectIntent, DispatchRecord, OutcomeRecord, RecoveredEffectState,
  not_prepared, prepared, outcome_known, outcome_unknown,
}
use kernis.Recovery.Durable.Facts.{
  RunId, StoreRevision, initial_revision, WorkflowReplayIdentity, AttemptAdmission,
  CancellationRecord, CompletionRecord, IdempotencyKey, DurableMutation, CommitLedgerEntry,
}

pub record DurableRunState : Type 0 where
  pub run_id : RunId
  pub revision : StoreRevision
  pub workflow_replay_identity : Option WorkflowReplayIdentity
  pub admissions : Map AttemptId AttemptAdmission
  pub admission_history : List AttemptAdmission
  pub intents : Map OperationId EffectIntent
  pub task_operations : Map TextId OperationId
  pub cancellations : Map TextId CancellationRecord
  pub dispatches : Map AttemptId DispatchRecord
  pub dispatch_history : List DispatchRecord
  pub outcomes : Map AttemptId OutcomeRecord
  pub outcome_history : List OutcomeRecord
  pub completions : Map TextId CompletionRecord
  pub completion_history : List CompletionRecord
  pub commit_ledger : List CommitLedgerEntry
  pub idempotency : Map IdempotencyKey (List DurableMutation × StoreRevision)

-- `DurableRunState::new`
abbrev pub new : RunId → DurableRunState
new run_id = record {
  run_id = run_id;
  revision = initial_revision;
  workflow_replay_identity = none;
  admissions = [];
  admission_history = [];
  intents = [];
  task_operations = [];
  cancellations = [];
  dispatches = [];
  dispatch_history = [];
  outcomes = [];
  outcome_history = [];
  completions = [];
  completion_history = [];
  commit_ledger = [];
  idempotency = [];
}

-- `is_empty` of a vector or a map.
abbrev pub is_empty {ℓ} : {A : Type ℓ} → List A → Bool
is_empty [] = true
is_empty (x ∷ xs) = false

-- `Iterator::filter`
abbrev pub filter {ℓ} : {A : Type ℓ} → (A → Bool) → List A → List A
filter p [] = []
filter p (x ∷ xs) = let rest = filter p xs in if p x then x ∷ rest else rest

-- `Iterator::last`
abbrev pub last {ℓ} : {A : Type ℓ} → List A → Option A
last [] = none
last (x ∷ []) = some x
last (x ∷ y ∷ xs) = last (y ∷ xs)

unfoldable pub is_pristine_bootstrap : DurableRunState → Bool
is_pristine_bootstrap s =
    s.revision =ℕ initial_revision
    && is_none s.workflow_replay_identity
    && is_empty s.admissions
    && is_empty s.admission_history
    && is_empty s.intents
    && is_empty s.task_operations
    && is_empty s.cancellations
    && is_empty s.dispatches
    && is_empty s.dispatch_history
    && is_empty s.outcomes
    && is_empty s.outcome_history
    && is_empty s.completions
    && is_empty s.completion_history
    && is_empty s.commit_ledger
    && is_empty s.idempotency

unfoldable pub attempts : DurableRunState → List AttemptAdmission
attempts s = s.admission_history

unfoldable pub attempt : DurableRunState → AttemptId → Option AttemptAdmission
attempt s a = Map.get s.admissions a

unfoldable pub intent : DurableRunState → OperationId → Option EffectIntent
intent s op = Map.get s.intents op

unfoldable pub intents : DurableRunState → List EffectIntent
intents s = Map.values s.intents

unfoldable pub cancellation : DurableRunState → TextId → Option CancellationRecord
cancellation s t = Map.get s.cancellations t

unfoldable pub cancellations : DurableRunState → List CancellationRecord
cancellations s = Map.values s.cancellations

unfoldable pub is_cancelled : DurableRunState → TextId → Bool
is_cancelled s t = Map.contains_key s.cancellations t

abbrev pub dispatches : DurableRunState → OperationId → List DispatchRecord
dispatches s op = filter (λ d. d.operation_id == op) s.dispatch_history

unfoldable pub latest_dispatch : DurableRunState → OperationId → Option DispatchRecord
latest_dispatch s op = last (dispatches s op)

unfoldable pub outcome_for_attempt : DurableRunState → AttemptId → Option OutcomeRecord
outcome_for_attempt s a = Map.get s.outcomes a

unfoldable pub outcome_history : DurableRunState → OperationId → List OutcomeRecord
outcome_history s op = filter (λ o. o.operation_id == op) s.outcome_history

unfoldable pub is_completed : DurableRunState → TextId → Bool
is_completed s t = Map.contains_key s.completions t

unfoldable pub completion_for_task : DurableRunState → TextId → Option CompletionRecord
completion_for_task s t = Map.get s.completions t

unfoldable pub latest_outcome : DurableRunState → OperationId → Option OutcomeRecord
unfolding latest_dispatch
latest_outcome s op = elim (latest_dispatch s op) [
  | none ↦ none
  | some d ↦ outcome_for_attempt s d.attempt_id
]

unfoldable pub effect_state : DurableRunState → OperationId → RecoveredEffectState
effect_state s op =
    if not (Map.contains_key s.intents op) then not_prepared else elim (latest_dispatch s op) [
      | none ↦ prepared
      | some d ↦ elim (outcome_for_attempt s d.attempt_id) [
        | none ↦ outcome_unknown
        | some o ↦ outcome_known o.outcome
      ]
    ]

unfoldable pub operation_ids : DurableRunState → List OperationId
operation_ids s = Map.keys s.intents

unfoldable pub operation_for_task : DurableRunState → TextId → Option OperationId
operation_for_task s t = Map.get s.task_operations t
