-- ===== src/Recovery/Classify/Safety.antt =====
-- Every decision about an operation is the right one for the facts: nothing is executed twice.
use kernis.Base.{
  ◌≡◌, ◌≢◌, refl, sym, subst, Bool, true, false, ◌⊎◌, none, some, List, [], ◌∷◌, arith, ok, err,
  fault, is_some, ==_iff, Option-cases, inl, inr, Outcome,
}
use kernis.Core.{id_ord}
use kernis.BTree.Map
use kernis.BTree.Set
use kernis.Workflow.Topology.{task}
use kernis.Workflow.Graph.{WorkflowGraph, is_completed}
use kernis.Recovery.Model.{
  OperationId, AttemptId, EffectIntent, EffectSemantics, idempotent, non_idempotent, DispatchRecord,
  OutcomeRecord, KnownEffectOutcome, succeeded, failed, RecoveredEffectState, prepared,
  outcome_known, outcome_unknown, RecoveryAction, execute, retry_same_operation,
  complete_without_reexecution, reconcile, no_action, observe_failure, invariant_violation,
  RecoveryDecision,
}
use kernis.Recovery.Journal.{
  DurableJournal, JournalError, unknown_operation, intent, state, last, latest_attempt,
  latest_dispatch, known_outcome,
}
use kernis.Recovery.Journal.Consistent.{IsConsistent, dispatched_for}
use kernis.Recovery.Classify.{
  classify_recovery, decide, decide_known, decide_unknown, invariant_decision,
}

-- No attempt of the operation was dispatched.
abbrev pub IsUndispatched : DurableJournal → OperationId → Type 0
IsUndispatched j op = (a : AttemptId) → dispatched_for j a op ≡ false

-- The last attempt was dispatched, and its outcome is not known.
pub record IsUnsettled (j : DurableJournal) (op : OperationId) : Type 0 where
  pub attempt : AttemptId
  pub latest : latest_attempt j op ≡ some attempt
  pub dispatched : dispatched_for j attempt op ≡ true
  pub unknown : Map.get j.outcomes attempt ≡ none

-- The last attempt had that outcome.
pub record IsSettled (j : DurableJournal) (op : OperationId) (k : KnownEffectOutcome) : Type 0 where
  pub attempt : AttemptId
  pub result : OutcomeRecord
  pub latest : latest_attempt j op ≡ some attempt
  pub known : Map.get j.outcomes attempt ≡ some result
  pub outcome : result.outcome ≡ k

-- What a recovered state says.
abbrev pub StateIs : DurableJournal → OperationId → RecoveredEffectState → Type 0
StateIs j op prepared = IsUndispatched j op
StateIs j op outcome_unknown = IsUnsettled j op
StateIs j op (outcome_known k) = IsSettled j op k
StateIs j op RecoveredEffectState.not_prepared = Map.get j.intents op ≡ none

contains-last :
    (attempts : List AttemptId) (a : AttemptId)
    → last attempts ≡ some a
    → Set.contains attempts a ≡ true
unfolding last Set.contains
contains-last [] a h = cc
contains-last (x ∷ []) a h = ground (arith, ==_iff x a)
contains-last (x ∷ y ∷ attempts) a h = ground (arith, contains-last (y ∷ attempts) a)

last-cons : (x : AttemptId) (attempts : List AttemptId) → last (x ∷ attempts) ≢ none
unfolding last
last-cons x [] h = cc
last-cons x (y ∷ attempts) h = last-cons y attempts h

last-none :
    (attempts : List AttemptId) (a : AttemptId)
    → last attempts ≡ none
    → Set.contains attempts a ≡ false
unfolding Set.contains
last-none [] a h = refl
last-none (x ∷ attempts) a h = absurd (last-cons x attempts h)

module _ (j : DurableJournal) (h : IsConsistent j) (op : OperationId) where
  latest_attempt-dispatched :
      (a : AttemptId) → latest_attempt j op ≡ some a → dispatched_for j a op ≡ true
  unfolding latest_attempt Set.contains
  latest_attempt-dispatched a e = elim (Option-cases (Map.get j.operation_attempts op)) [
    | inl k ↦ ground arith
    | inr (attempts, k) ↦ ground (arith, contains-last attempts a, h.attempts_agree op a)
  ]

  latest_attempt-none : latest_attempt j op ≡ none → IsUndispatched j op
  unfolding latest_attempt Set.contains
  latest_attempt-none e a = elim (Option-cases (Map.get j.operation_attempts op)) [
    | inl k ↦ ground (arith, h.attempts_agree op a)
    | inr (attempts, k) ↦ ground (arith, last-none attempts a, h.attempts_agree op a)
  ]

  -- `state` reads the facts right.
  state-StateIs : StateIs j op (state j op)
  unfolding state known_outcome latest_dispatch
  state-StateIs = elim (Option-cases (Map.get j.intents op)) [
    | inl e ↦
        let s : state j op ≡ RecoveredEffectState.not_prepared = ground arith in
        subst (StateIs j op) (sym s) e
    | inr (i, e) ↦ elim (Option-cases (latest_attempt j op)) [
      | inl k ↦
          let s : state j op ≡ prepared = ground arith in
          subst (StateIs j op) (sym s) (latest_attempt-none k)
      | inr (a, k) ↦ elim (Option-cases (Map.get j.outcomes a)) [
        | inr (o, u) ↦
            let s : state j op ≡ outcome_known o.outcome = ground arith in
            subst (StateIs j op) (sym s)
              (record { attempt = a; result = o; latest = k; known = u; outcome = refl })
        | inl u ↦
            let s : state j op ≡ outcome_unknown = ground (arith, latest_attempt-dispatched a k) in
            subst (StateIs j op) (sym s) (record {
              attempt = a;
              latest = k;
              dispatched = latest_attempt-dispatched a k;
              unknown = u;
            })
      ]
    ]
  ]

-- What a decision says of the facts. `i` is the operation's intent.
abbrev pub ActionIs :
    WorkflowGraph → DurableJournal → OperationId → EffectIntent → RecoveryAction → Type 0
ActionIs w j op i execute =
    (is_some (task w.topology i.task_id) ≡ true)
    × (is_completed w.facts i.task_id ≡ false)
    × IsUndispatched j op
ActionIs w j op i retry_same_operation =
    (is_some (task w.topology i.task_id) ≡ true)
    × (is_completed w.facts i.task_id ≡ false)
    × (i.semantics ≡ idempotent)
    × IsUnsettled j op
ActionIs w j op i reconcile =
    (is_some (task w.topology i.task_id) ≡ true)
    × (is_completed w.facts i.task_id ≡ false)
    × (i.semantics ≡ non_idempotent)
    × IsUnsettled j op
ActionIs w j op i complete_without_reexecution =
    (is_some (task w.topology i.task_id) ≡ true)
    × (is_completed w.facts i.task_id ≡ false)
    × IsSettled j op succeeded
ActionIs w j op i no_action =
    (is_some (task w.topology i.task_id) ≡ true)
    × (is_completed w.facts i.task_id ≡ true)
    × IsSettled j op succeeded
ActionIs w j op i observe_failure =
    (is_some (task w.topology i.task_id) ≡ true)
    × (is_completed w.facts i.task_id ≡ false)
    × IsSettled j op failed
ActionIs w j op i invariant_violation =
    (is_some (task w.topology i.task_id) ≡ false)
    ⊎ ((is_completed w.facts i.task_id ≡ true)
        × (IsUndispatched j op ⊎ IsUnsettled j op ⊎ IsSettled j op failed))

abbrev pub ClassifyEnsures :
    WorkflowGraph → DurableJournal → OperationId → Outcome JournalError RecoveryDecision → Type 0
ClassifyEnsures w j op (ok d) =
    (i : EffectIntent) × (Map.get j.intents op ≡ some i) × ActionIs w j op i d.action
ClassifyEnsures w j op (err e) = (e ≡ unknown_operation op) × (Map.get j.intents op ≡ none)
ClassifyEnsures w j op (fault x) = ⊥

semantics_cases : (s : EffectSemantics) → (s ≡ idempotent) ⊎ (s ≡ non_idempotent)
semantics_cases idempotent = inl refl
semantics_cases non_idempotent = inr refl

latest_dispatch-some :
    (j : DurableJournal) (op : OperationId) (u : IsUnsettled j op)
    → (d : DispatchRecord) × (latest_dispatch j op ≡ some d)
unfolding latest_dispatch
latest_dispatch-some j op u = elim (Option-cases (Map.get j.dispatches u.attempt)) [
  | inl n ↦ absurd (ground (arith, u.dispatched))
  | inr (d, n) ↦ (d, ground (arith, u.latest))
]

known_outcome-some :
    (j : DurableJournal) (op : OperationId) (k : KnownEffectOutcome) (u : IsSettled j op k)
    → known_outcome j op ≡ some u.result
unfolding known_outcome
known_outcome-some j op k u = ground (arith, u.latest, u.known)

module _ (w : WorkflowGraph) (j : DurableJournal) (op : OperationId) (i : EffectIntent)
    (intended : Map.get j.intents op ≡ some i)
    (known : is_some (task w.topology i.task_id) ≡ true) where
  decide_unknown-Ensures :
      (d : DispatchRecord) (done : Bool)
      → is_completed w.facts i.task_id ≡ done
      → IsUnsettled j op
      → ClassifyEnsures w j op (decide_unknown op i (some d) done)
  unfolding decide_unknown invariant_decision
  decide_unknown-Ensures d true e u = (i, intended, inr (e, inr (inl u)))
  decide_unknown-Ensures d false e u = elim (semantics_cases i.semantics) [
    | inl s ↦ rw (s, decide_unknown) (i, intended, (known, e, s, u))
    | inr s ↦ rw (s, decide_unknown) (i, intended, (known, e, s, u))
  ]

  decide_known-Ensures :
      (k : KnownEffectOutcome) (o : OutcomeRecord) (done : Bool)
      → is_completed w.facts i.task_id ≡ done
      → IsSettled j op k
      → ClassifyEnsures w j op (decide_known op i k (some o) done)
  unfolding decide_known invariant_decision
  decide_known-Ensures succeeded o true e u = (i, intended, (known, e, u))
  decide_known-Ensures succeeded o false e u = (i, intended, (known, e, u))
  decide_known-Ensures failed o true e u = (i, intended, inr (e, inr (inr u)))
  decide_known-Ensures failed o false e u = (i, intended, (known, e, u))

  decide-Ensures :
      (s : RecoveredEffectState) (done : Bool)
      → is_completed w.facts i.task_id ≡ done
      → StateIs j op s
      → ClassifyEnsures w j op (decide j op i s done)
  unfolding decide
  decide-Ensures prepared true e h = (i, intended, inr (e, inl h))
  decide-Ensures prepared false e h = (i, intended, (known, e, h))
  decide-Ensures outcome_unknown done e h =
      let (d, n) = latest_dispatch-some j op h in
      subst (λ z. ClassifyEnsures w j op (decide_unknown op i z done)) (sym n)
        (decide_unknown-Ensures d done e h)
  decide-Ensures (outcome_known k) done e h =
      subst (λ z. ClassifyEnsures w j op (decide_known op i k z done))
        (sym (known_outcome-some j op k h)) (decide_known-Ensures k h.result done e h)
  decide-Ensures RecoveredEffectState.not_prepared done e h = absurd (ground arith)

-- On a consistent journal `classify_recovery` never panics; it refuses exactly an operation without
-- an intent, and each action that it decides on is licensed by the facts. It executes only what was
-- never dispatched; it retries only an idempotent operation whose last attempt has no known outcome,
-- and reconciles such a one that is not idempotent; a known success of a task that is not completed is
-- completed without another execution, and a known failure is observed; and it reports a violated
-- invariant only where the task is missing, or is completed without a known success.
pub classify_recovery-Ensures :
    (w : WorkflowGraph) (j : DurableJournal) (op : OperationId)
    → IsConsistent j
    → ClassifyEnsures w j op (classify_recovery w j op)
unfolding classify_recovery intent invariant_decision
classify_recovery-Ensures w j op h = elim (Option-cases (Map.get j.intents op)) [
  | inl e ↦ rw (e, intent) (refl, e)
  | inr (i, e) ↦ elim (Option-cases (task w.topology i.task_id)) [
    | inl n ↦
        let s : classify_recovery w j op ≡ ok (invariant_decision op i (state j op)) =
          ground arith in
        subst (ClassifyEnsures w j op) (sym s) (i, e, inl (ground arith))
    | inr (t, n) ↦
        let s : classify_recovery w j op
            ≡ decide j op i (state j op) (is_completed w.facts i.task_id) =
          ground arith in
        subst (ClassifyEnsures w j op) (sym s)
          (decide-Ensures w j op i e (ground arith) (state j op) _ refl (state-StateIs j h op))
  ]
]
