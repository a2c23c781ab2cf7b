-- ===== src/Recovery/Durable/Apply.antt =====
-- crates/workflow-recovery/src/durable.rs: `apply_mutation`, a function for each arm. An arm returns
-- its error before it writes, so an error leaves the state as it was.
use kernis.Base.{
  Bool, true, false, not, ◌&&◌, ◌||◌, Option, none, some, [], ◌∷◌, ◌++◌, if◌then◌else◌, ◌==◌,
  Outcome, ok, err, option_eq,
}
use kernis.Core.{id_ord, id_eq, is_blank}
use kernis.BTree.Map
use kernis.BTree.Map.{Map}
use kernis.Recovery.Model.{OperationId, EffectIntent, DispatchRecord, OutcomeRecord, succeeded}
use kernis.Recovery.Journal.{same_outcome}
use kernis.Recovery.Durable.Facts.{
  WorkflowReplayIdentity, AttemptAdmission, CancellationRecord, CompletionRecord, DurableMutation,
  record_workflow_replay_identity, admit_attempt, record_intent, record_cancellation,
  record_dispatch, record_outcome, record_completion, StoreError, empty_workflow_replay_identity,
  invariant_violation, StoreInvariant, completion_without_admission, completion_attempt_mismatch,
  completion_without_intent, completion_without_dispatch, completion_not_latest_dispatch,
  completion_without_successful_outcome, conflicting_completion, attempt_id_reuse,
  dispatch_without_admission, dispatch_attempt_mismatch, outcome_without_admission,
  outcome_without_dispatch, outcome_attempt_mismatch, conflicting_outcome, task_operation_conflict,
  dispatch_cancelled, cancellation_lineage_mismatch, conflicting_cancellation,
}
use kernis.Recovery.Durable.Same.{same_intent, same_cancellation, same_completion}
use kernis.Recovery.Durable.State.{DurableRunState, latest_dispatch}

abbrev pub Applied : Type 0
Applied = Outcome StoreError DurableRunState

abbrev pub violates : StoreInvariant → Applied
violates invariant = err (invariant_violation invariant)

-- `first != second` of optional operations
abbrev pub is_operation : Option OperationId → OperationId → Bool
is_operation none op = false
is_operation (some o) op = o == op

abbrev pub same_operation : Option OperationId → Option OperationId → Bool
same_operation none none = true
same_operation (some a) (some b) = a == b
same_operation _ _ = false

unfoldable pub apply_identity : DurableRunState → WorkflowReplayIdentity → Applied
apply_identity s identity =
    if is_blank identity.value
    then err empty_workflow_replay_identity
    else ok (record s { workflow_replay_identity = some identity })

unfoldable pub apply_admission : DurableRunState → AttemptAdmission → Applied
apply_admission s admission =
    if not (admission.run_id == s.run_id)
    then violates (attempt_id_reuse admission.attempt_id)
    else if Map.contains_key s.admissions admission.attempt_id
    then violates (attempt_id_reuse admission.attempt_id)
    else ok (record s {
      admissions = Map.insert s.admissions admission.attempt_id admission;
      admission_history = s.admission_history ++ admission ∷ [];
    })

unfoldable pub apply_intent : DurableRunState → EffectIntent → Applied
apply_intent s intent = elim (Map.get s.intents intent.operation_id) [
  | some existing ↦
      if same_intent existing intent
      then ok s
      else violates
          (task_operation_conflict intent.task_id existing.operation_id intent.operation_id)
  | none ↦ elim (Map.get s.task_operations intent.task_id) [
    | some existing ↦ violates (task_operation_conflict intent.task_id existing intent.operation_id)
    | none ↦ ok (record s {
      task_operations = Map.insert s.task_operations intent.task_id intent.operation_id;
      intents = Map.insert s.intents intent.operation_id intent;
    })
  ]
]

-- `if let Some(operation_id) = &cancellation.operation_id`
abbrev pub operation_lineage : DurableRunState → CancellationRecord → Bool
operation_lineage s c = elim c.operation_id [
  | none ↦ true
  | some op ↦ is_operation (Map.get s.task_operations c.task_id) op
]

-- `if let Some(attempt_id) = &cancellation.attempt_id`
abbrev pub attempt_lineage : DurableRunState → CancellationRecord → Bool
attempt_lineage s c = elim c.attempt_id [
  | none ↦ true
  | some a ↦ elim (Map.get s.admissions a) [
    | none ↦ false
    | some admission ↦
        admission.task_id == c.task_id && same_operation admission.operation_id c.operation_id
  ]
]

unfoldable pub apply_cancellation : DurableRunState → CancellationRecord → Applied
apply_cancellation s c =
    if not (c.run_id == s.run_id)
    then violates (cancellation_lineage_mismatch c.task_id)
    else elim (Map.get s.cancellations c.task_id) [
      | some existing ↦
          if same_cancellation existing c
          then ok s
          else violates (conflicting_cancellation c.task_id)
      | none ↦
          if not (operation_lineage s c)
          then violates (cancellation_lineage_mismatch c.task_id)
          else if not (attempt_lineage s c)
          then violates (cancellation_lineage_mismatch c.task_id)
          else ok (record s { cancellations = Map.insert s.cancellations c.task_id c })
    ]

-- `RecordDispatch` with the intent and the admission that it names.
unfoldable pub admit_dispatch :
    DurableRunState → DispatchRecord → EffectIntent → AttemptAdmission → Applied
admit_dispatch s d intent admission =
    if not (is_operation admission.operation_id d.operation_id)
    then violates (dispatch_attempt_mismatch d.attempt_id d.operation_id)
    else if not (intent.task_id == admission.task_id)
    then violates (dispatch_attempt_mismatch d.attempt_id d.operation_id)
    else if Map.contains_key s.cancellations admission.task_id
        && not (Map.contains_key s.dispatches d.attempt_id)
    then violates (dispatch_cancelled admission.task_id)
    else if Map.contains_key s.dispatches d.attempt_id
    then violates (dispatch_attempt_mismatch d.attempt_id d.operation_id)
    else ok (record s {
      dispatches = Map.insert s.dispatches d.attempt_id d;
      dispatch_history = s.dispatch_history ++ d ∷ [];
    })

unfoldable pub apply_dispatch : DurableRunState → DispatchRecord → Applied
apply_dispatch s d = elim (Map.get s.intents d.operation_id) [
  | none ↦ violates (dispatch_without_admission d.attempt_id)
  | some intent ↦ elim (Map.get s.admissions d.attempt_id) [
    | none ↦ violates (dispatch_without_admission d.attempt_id)
    | some admission ↦ admit_dispatch s d intent admission
  ]
]

-- `RecordOutcome` with the admission and the dispatch of its attempt.
unfoldable pub settle_outcome :
    DurableRunState → OutcomeRecord → AttemptAdmission → DispatchRecord → Applied
settle_outcome s o admission d =
    if not (d.operation_id == o.operation_id)
      || not (is_operation admission.operation_id o.operation_id)
    then violates (outcome_attempt_mismatch o.attempt_id o.operation_id)
    else elim (Map.get s.outcomes o.attempt_id) [
      | some existing ↦
          if same_outcome existing.outcome o.outcome
          then ok s
          else violates (conflicting_outcome o.attempt_id existing.outcome o.outcome)
      | none ↦ ok (record s {
        outcomes = Map.insert s.outcomes o.attempt_id o;
        outcome_history = s.outcome_history ++ o ∷ [];
      })
    ]

unfoldable pub apply_outcome : DurableRunState → OutcomeRecord → Applied
apply_outcome s o = elim (Map.get s.admissions o.attempt_id) [
  | none ↦ violates (outcome_without_admission o.attempt_id)
  | some admission ↦ elim (Map.get s.dispatches o.attempt_id) [
    | none ↦ violates (outcome_without_dispatch o.attempt_id)
    | some d ↦ settle_outcome s o admission d
  ]
]

-- The evidence that a completion of an attempt of the operation needs: the first that is missing.
unfoldable pub missing_evidence :
    DurableRunState → CompletionRecord → OperationId → Option StoreInvariant
missing_evidence s c op =
    if not (Map.contains_key s.intents op)
    then some (completion_without_intent op)
    else if not
        (elim (Map.get s.dispatches c.attempt_id) [ none ↦ false | some d ↦ d.operation_id == op ])
    then some (completion_without_dispatch c.attempt_id)
    else if not
        (elim (latest_dispatch s op) [ none ↦ false | some d ↦ d.attempt_id == c.attempt_id ])
    then some (completion_not_latest_dispatch op c.attempt_id)
    else elim (Map.get s.outcomes c.attempt_id) [
      | none ↦ some (completion_without_successful_outcome c.attempt_id none)
      | some o ↦
          if same_outcome o.outcome succeeded
          then none
          else some (completion_without_successful_outcome c.attempt_id (some o.outcome))
    ]

-- `RecordCompletion` after its evidence was checked.
unfoldable pub settle_completion : DurableRunState → CompletionRecord → Applied
settle_completion s c = elim (Map.get s.completions c.task_id) [
  | some existing ↦
      if same_completion existing c
      then ok s
      else violates (conflicting_completion c.task_id existing.attempt_id c.attempt_id)
  | none ↦ ok (record s {
    completions = Map.insert s.completions c.task_id c;
    completion_history = s.completion_history ++ c ∷ [];
  })
]

abbrev pub lacks : DurableRunState → CompletionRecord → Option OperationId → Option StoreInvariant
lacks s c none = none
lacks s c (some op) = missing_evidence s c op

unfoldable pub apply_completion : DurableRunState → CompletionRecord → Applied
apply_completion s c = elim (Map.get s.admissions c.attempt_id) [
  | none ↦ violates (completion_without_admission c.attempt_id)
  | some admission ↦
      if not (admission.task_id == c.task_id)
      then violates (completion_attempt_mismatch c.task_id c.attempt_id)
      else elim (lacks s c admission.operation_id) [
        | some missing ↦ violates missing
        | none ↦ settle_completion s c
      ]
]

unfoldable pub apply_mutation : DurableRunState → DurableMutation → Applied
apply_mutation s (record_workflow_replay_identity identity) = apply_identity s identity
apply_mutation s (admit_attempt admission) = apply_admission s admission
apply_mutation s (record_intent intent) = apply_intent s intent
apply_mutation s (record_cancellation c) = apply_cancellation s c
apply_mutation s (record_dispatch d) = apply_dispatch s d
apply_mutation s (record_outcome o) = apply_outcome s o
apply_mutation s (record_completion c) = apply_completion s c
