-- ===== src/Recovery/Journal/Consistent.antt =====
-- The five maps of a journal agree, and every write keeps them so.
use kernis.Base.{
  ◌≡◌, refl, Bool, true, false, ◌||◌, ◌&&◌, none, some, List, [], ◌∷◌, ◌++◌, arith, ==_iff, ◌==◌,
  if◌then◌else◌, Bool-cases, Option-cases, inl, inr,
}
use kernis.Core.{TextId, id_ord}
use kernis.BTree.Map
use kernis.BTree.Map.{Map}
use kernis.BTree.Set
use kernis.Recovery.Model.{OperationId, AttemptId, EffectIntent, DispatchRecord, OutcomeRecord}
use kernis.Recovery.Journal.{
  DurableJournal, new, persist_intent, persist_dispatch, persist_outcome, push_attempt, settle,
}

-- The task belongs to the operation.
abbrev pub owned_by : DurableJournal → TextId → OperationId → Bool
owned_by j t op = elim (Map.get j.task_operations t) [ none ↦ false | some o ↦ o == op ]

-- The operation's intent is for the task.
abbrev pub intended_for : DurableJournal → OperationId → TextId → Bool
intended_for j op t = elim (Map.get j.intents op) [ none ↦ false | some i ↦ i.task_id == t ]

abbrev pub dispatched_for : DurableJournal → AttemptId → OperationId → Bool
dispatched_for j a op = elim (Map.get j.dispatches a) [
  | none ↦ false
  | some d ↦ d.operation_id == op
]

abbrev pub attempts_of : DurableJournal → OperationId → List AttemptId
attempts_of j op = elim (Map.get j.operation_attempts op) [ none ↦ [] | some attempts ↦ attempts ]

pub record IsConsistent (j : DurableJournal) : Type 0 where
  pub intent_key :
      (op : OperationId) (i : EffectIntent) → Map.get j.intents op ≡ some i → i.operation_id ≡ op
  -- Tasks and operations belong to each other one to one.
  pub tasks_agree : (t : TextId) (op : OperationId) → owned_by j t op ≡ intended_for j op t
  pub dispatch_key :
      (a : AttemptId) (d : DispatchRecord) → Map.get j.dispatches a ≡ some d → d.attempt_id ≡ a
  pub dispatch_intended :
      (a : AttemptId) (d : DispatchRecord)
      → Map.get j.dispatches a ≡ some d
      → Map.contains_key j.intents d.operation_id ≡ true
  -- The attempts of an operation are those dispatched for it.
  pub attempts_agree :
      (op : OperationId) (a : AttemptId) → Set.contains (attempts_of j op) a ≡ dispatched_for j a op
  pub outcome_key :
      (a : AttemptId) (o : OutcomeRecord) → Map.get j.outcomes a ≡ some o → o.attempt_id ≡ a
  pub outcome_dispatched :
      (a : AttemptId) (o : OutcomeRecord)
      → Map.get j.outcomes a ≡ some o
      → dispatched_for j a o.operation_id ≡ true

pub new-IsConsistent : IsConsistent new
unfolding Map.get Set.contains
new-IsConsistent = record {
  intent_key = λ op i e. cc;
  tasks_agree = λ t op. refl;
  dispatch_key = λ a d e. cc;
  dispatch_intended = λ a d e. cc;
  attempts_agree = λ op a. refl;
  outcome_key = λ a o e. cc;
  outcome_dispatched = λ a o e. cc;
}

module _ (j : DurableJournal) (h : IsConsistent j) where
  pub persist_intent-IsConsistent : (i : EffectIntent) → IsConsistent (persist_intent i j).1
  unfolding persist_intent
  persist_intent-IsConsistent i = record {
    intent_key = λ op i' e. ground (
      arith,
      h.intent_key op i',
      Map.get-insert j.intents i.operation_id i op,
      ==_iff i.operation_id op,
    );
    tasks_agree = λ t op. ground (
      arith,
      h.tasks_agree t op,
      Map.get-insert j.intents i.operation_id i op,
      Map.get-insert j.task_operations i.task_id i.operation_id t,
      ==_iff i.operation_id op,
      ==_iff i.task_id t,
    );
    dispatch_key = λ a d e. ground (arith, h.dispatch_key a d);
    dispatch_intended = λ a d e.
        ground (
          arith,
          h.dispatch_intended a d,
          Map.get-insert j.intents i.operation_id i d.operation_id,
        );
    attempts_agree = λ op a. ground (arith, h.attempts_agree op a);
    outcome_key = λ a o e. ground (arith, h.outcome_key a o);
    outcome_dispatched = λ a o e. ground (arith, h.outcome_dispatched a o);
  }

  push_attempt-attempts :
      (m : Map OperationId (List AttemptId)) (op : OperationId) (a : AttemptId) (op' : OperationId)
      → Map.get (push_attempt m op a) op' ≡ (
          if op == op'
          then some (elim (Map.get m op) [ none ↦ a ∷ [] | some attempts ↦ attempts ++ a ∷ [] ])
          else Map.get m op')
  unfolding push_attempt
  push_attempt-attempts m op a op' = ground (
    arith,
    Map.get-insert m op (a ∷ []) op',
    Map.get-update m op (λ xs. xs ++ a ∷ []) op',
    ==_iff op op',
  )

  -- The attempts of `op'` after one of `op` was added.
  contains-push_attempt :
      (op : OperationId) (a : AttemptId) (op' : OperationId) (b : AttemptId)
      → Set.contains
          (attempts_of
            (record j { operation_attempts = push_attempt j.operation_attempts op a })
            op')
          b
        ≡ ((op == op' && a == b) || Set.contains (attempts_of j op') b)
  unfolding Set.contains
  contains-push_attempt op a op' b = elim (Option-cases (Map.get j.operation_attempts op)) [
    | inl e ↦ ground (arith, push_attempt-attempts j.operation_attempts op a op', ==_iff op op')
    | inr (attempts, e) ↦ ground (
      arith,
      push_attempt-attempts j.operation_attempts op a op',
      ==_iff op op',
      Set.contains-append attempts (a ∷ []) b,
    )
  ]

  pub persist_dispatch-IsConsistent : (d : DispatchRecord) → IsConsistent (persist_dispatch d j).1
  unfolding persist_dispatch
  persist_dispatch-IsConsistent d = record {
    intent_key = λ op i e. ground (arith, h.intent_key op i);
    tasks_agree = λ t op. ground (arith, h.tasks_agree t op);
    dispatch_key = λ a d' e. ground (
      arith,
      h.dispatch_key a d',
      Map.get-insert j.dispatches d.attempt_id d a,
      ==_iff d.attempt_id a,
    );
    dispatch_intended = λ a d' e.
        ground (arith, h.dispatch_intended a d', Map.get-insert j.dispatches d.attempt_id d a);
    attempts_agree = λ op a. ground (
      arith,
      h.attempts_agree op a,
      Map.get-insert j.dispatches d.attempt_id d a,
      contains-push_attempt d.operation_id d.attempt_id op a,
      ==_iff d.attempt_id a,
      ==_iff d.operation_id op,
    );
    outcome_key = λ a o e. ground (arith, h.outcome_key a o);
    outcome_dispatched = λ a o e. ground (
      arith,
      h.outcome_dispatched a o,
      Map.get-insert j.dispatches d.attempt_id d a,
      ==_iff d.attempt_id a,
    );
  }

  settle-IsConsistent :
      (o : OutcomeRecord) (d : DispatchRecord)
      → Map.get j.dispatches o.attempt_id ≡ some d
      → IsConsistent (settle o d j).1
  unfolding settle
  settle-IsConsistent o d k = record {
    intent_key = λ op i e. ground (arith, h.intent_key op i);
    tasks_agree = λ t op. ground (arith, h.tasks_agree t op);
    dispatch_key = λ a d' e. ground (arith, h.dispatch_key a d');
    dispatch_intended = λ a d' e. ground (arith, h.dispatch_intended a d');
    attempts_agree = λ op a. ground (arith, h.attempts_agree op a);
    outcome_key = λ a o' e. ground (
      arith,
      h.outcome_key a o',
      Map.get-insert j.outcomes o.attempt_id o a,
      ==_iff o.attempt_id a,
    );
    outcome_dispatched = λ a o' e. ground (
      arith,
      h.outcome_dispatched a o',
      Map.get-insert j.outcomes o.attempt_id o a,
      ==_iff o.attempt_id a,
    );
  }

  pub persist_outcome-IsConsistent : (o : OutcomeRecord) → IsConsistent (persist_outcome o j).1
  unfolding persist_outcome
  persist_outcome-IsConsistent o = elim (Bool-cases (Map.contains_key j.intents o.operation_id)) [
    | inr e ↦ rw e h
    | inl e ↦ elim (Option-cases (Map.get j.dispatches o.attempt_id)) [
      | inl k ↦ rw (e, k) h
      | inr (d, k) ↦ rw (e, k) (settle-IsConsistent o d k)
    ]
  ]
