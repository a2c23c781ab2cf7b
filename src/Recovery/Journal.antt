-- ===== src/Recovery/Journal.antt =====
-- crates/workflow-recovery/src/journal.rs: the journal of effect intents, dispatches and outcomes.
pub mod Consistent
pub mod Writes
use kernis.Base.{
  Bool, true, false, not, Option, none, some, List, [], ◌∷◌, ◌++◌, Outcome, ok, err, fault,
  if◌then◌else◌, ◌==◌, is_some,
}
use kernis.Core.{TextId, id_ord}
use kernis.BTree.Map
use kernis.BTree.Map.{Map}
use kernis.Recovery.Model.{
  OperationId, AttemptId, EffectIntent, DispatchRecord, OutcomeRecord, KnownEffectOutcome,
  succeeded, failed, RecoveredEffectState, prepared, outcome_known, outcome_unknown,
}

-- `JournalInvariant`, which is reserved.
pub data JournalInvariant : Type 0 where
  reserved : JournalInvariant

pub data JournalError : Type 0 where
  unknown_operation duplicate_intent dispatch_without_intent : OperationId → JournalError
  -- the task, its operation, and the one attempted
  task_operation_conflict : TextId → OperationId → OperationId → JournalError
  duplicate_attempt outcome_without_dispatch : OperationId → AttemptId → JournalError
  -- the operation, the attempt, and the operation that it was dispatched for
  attempt_mismatch : OperationId → AttemptId → OperationId → JournalError
  -- the existing outcome, and the one attempted
  conflicting_outcome :
      OperationId → AttemptId → KnownEffectOutcome → KnownEffectOutcome → JournalError
  invariant_violation : JournalInvariant → JournalError
  workflow_state_mismatch : OperationId → TextId → RecoveredEffectState → JournalError

pub record DurableJournal : Type 0 where
  pub intents : Map OperationId EffectIntent
  pub task_operations : Map TextId OperationId
  pub dispatches : Map AttemptId DispatchRecord
  pub operation_attempts : Map OperationId (List AttemptId)
  pub outcomes : Map AttemptId OutcomeRecord

-- `DurableJournal::new`
abbrev pub new : DurableJournal
new = record {
  intents = [];
  task_operations = [];
  dispatches = [];
  operation_attempts = [];
  outcomes = [];
}

unfoldable pub persist_intent :
    EffectIntent → DurableJournal → Outcome JournalError (Unit {0}) × DurableJournal
persist_intent i j =
    if Map.contains_key j.intents i.operation_id
    then (err (duplicate_intent i.operation_id), j)
    else elim (Map.get j.task_operations i.task_id) [
      | some existing ↦ (err (task_operation_conflict i.task_id existing i.operation_id), j)
      | none ↦ (
        ok tt,
        record j {
          task_operations = Map.insert j.task_operations i.task_id i.operation_id;
          intents = Map.insert j.intents i.operation_id i;
        },
      )
    ]

-- `entry(operation_id).or_default().push(attempt_id)`
unfoldable pub push_attempt :
    Map OperationId (List AttemptId) → OperationId → AttemptId → Map OperationId (List AttemptId)
push_attempt m op a = elim (Map.get m op) [
  | none ↦ Map.insert m op (a ∷ [])
  | some attempts ↦ Map.update m op (λ xs. xs ++ a ∷ [])
]

unfoldable pub persist_dispatch :
    DispatchRecord → DurableJournal → Outcome JournalError (Unit {0}) × DurableJournal
persist_dispatch d j =
    if not (Map.contains_key j.intents d.operation_id)
    then (err (dispatch_without_intent d.operation_id), j)
    else if Map.contains_key j.dispatches d.attempt_id
    then (err (duplicate_attempt d.operation_id d.attempt_id), j)
    else (
      ok tt,
      record j {
        operation_attempts = push_attempt j.operation_attempts d.operation_id d.attempt_id;
        dispatches = Map.insert j.dispatches d.attempt_id d;
      },
    )

-- The derived `==` of `KnownEffectOutcome`.
abbrev pub same_outcome : KnownEffectOutcome → KnownEffectOutcome → Bool
same_outcome succeeded succeeded = true
same_outcome failed failed = true
same_outcome _ _ = false

-- `persist_outcome` for the dispatch of the attempt.
unfoldable pub settle :
    OutcomeRecord
    → DispatchRecord
    → DurableJournal
    → Outcome JournalError (Unit {0}) × DurableJournal
settle o d j =
    if not (d.operation_id == o.operation_id)
    then (err (attempt_mismatch o.operation_id o.attempt_id d.operation_id), j)
    else elim (Map.get j.outcomes o.attempt_id) [
      | some existing ↦
          if same_outcome existing.outcome o.outcome
          then (ok tt, j)
          else (err (conflicting_outcome o.operation_id o.attempt_id existing.outcome o.outcome), j)
      | none ↦ (ok tt, record j { outcomes = Map.insert j.outcomes o.attempt_id o })
    ]

unfoldable pub persist_outcome :
    OutcomeRecord → DurableJournal → Outcome JournalError (Unit {0}) × DurableJournal
persist_outcome o j =
    if not (Map.contains_key j.intents o.operation_id)
    then (err (unknown_operation o.operation_id), j)
    else elim (Map.get j.dispatches o.attempt_id) [
      | none ↦ (err (outcome_without_dispatch o.operation_id o.attempt_id), j)
      | some d ↦ settle o d j
    ]

unfoldable pub intent : DurableJournal → OperationId → Outcome JournalError EffectIntent
intent j op = elim (Map.get j.intents op) [ none ↦ err (unknown_operation op) | some i ↦ ok i ]

unfoldable pub operation_for_task : DurableJournal → TextId → Option OperationId
operation_for_task j t = Map.get j.task_operations t

-- `attempts.last()`
unfoldable pub last : List AttemptId → Option AttemptId
last [] = none
last (a ∷ []) = some a
last (a ∷ b ∷ rest) = last (b ∷ rest)

-- The last attempt of an operation.
unfoldable pub latest_attempt : DurableJournal → OperationId → Option AttemptId
latest_attempt j op = elim (Map.get j.operation_attempts op) [
  | none ↦ none
  | some attempts ↦ last attempts
]

unfoldable pub latest_dispatch : DurableJournal → OperationId → Option DispatchRecord
latest_dispatch j op = elim (latest_attempt j op) [ none ↦ none | some a ↦ Map.get j.dispatches a ]

unfoldable pub known_outcome : DurableJournal → OperationId → Option OutcomeRecord
known_outcome j op = elim (latest_attempt j op) [ none ↦ none | some a ↦ Map.get j.outcomes a ]

unfoldable pub state : DurableJournal → OperationId → RecoveredEffectState
state j op =
    if not (Map.contains_key j.intents op)
    then RecoveredEffectState.not_prepared
    else elim (known_outcome j op) [
      | some o ↦ outcome_known o.outcome
      | none ↦ if is_some (latest_dispatch j op) then outcome_unknown else prepared
    ]

unfoldable pub operation_ids : DurableJournal → List OperationId
operation_ids j = Map.keys j.intents
