-- ===== src/Recovery/Durable/Sound.antt =====
-- `apply_mutation` accepts a mutation only by a step.
use kernis.Base.{
  ◌≡◌, refl, subst, true, Option, none, some, arith, ==_iff, Option-cases, Bool-cases, inl, inr, ok,
}
use kernis.Core.{id_ord, is_blank}
use kernis.BTree.Map
use kernis.BTree.Map.{Map}
use kernis.Recovery.Model.{OperationId, EffectIntent, DispatchRecord, OutcomeRecord, succeeded}
use kernis.Recovery.Durable.Facts.{
  WorkflowReplayIdentity, AttemptAdmission, CancellationRecord, CompletionRecord, DurableMutation,
  record_workflow_replay_identity, admit_attempt, record_intent, record_cancellation,
  record_dispatch, record_outcome, record_completion,
}
use kernis.Recovery.Durable.Same.{
  same_outcome_iff, same_intent_iff, same_cancellation_iff, same_completion_iff,
}
use kernis.Recovery.Durable.State.{DurableRunState, latest_dispatch}
use kernis.Recovery.Durable.Apply.{
  apply_identity, apply_admission, apply_intent, apply_cancellation, admit_dispatch, apply_dispatch,
  settle_outcome, apply_outcome, missing_evidence, settle_completion, apply_completion, lacks,
  apply_mutation, operation_lineage, attempt_lineage, is_operation, same_operation,
}
use kernis.Recovery.Durable.Step

module _ (s : DurableRunState) where
  -- The optional operation is the one.
  is_operation_iff :
      (o : Option OperationId) (op : OperationId) → is_operation o op ≡ true → o ≡ some op
  is_operation_iff none op h = cc
  is_operation_iff (some o) op h = ground (arith, ==_iff o op)

  identity-Step :
      (identity : WorkflowReplayIdentity) (next : DurableRunState)
      → apply_identity s identity ≡ ok next
      → Step.Step s (record_workflow_replay_identity identity) next
  unfolding apply_identity
  identity-Step identity next h = elim (Bool-cases (is_blank identity.value)) [
    | inl e ↦ ground arith
    | inr e ↦
        let eq : Step.with_identity s identity ≡ next = ground arith in
        subst (λ n. Step.Step s (record_workflow_replay_identity identity) n) eq
          (Step.identified identity e)
  ]

  admission-Step :
      (x : AttemptAdmission) (next : DurableRunState)
      → apply_admission s x ≡ ok next
      → Step.Step s (admit_attempt x) next
  unfolding apply_admission
  admission-Step x next h =
      let eq : Step.with_admission s x ≡ next = ground arith in
      subst (λ n. Step.Step s (admit_attempt x) n) eq
        (Step.admitted x (ground (arith, ==_iff x.run_id s.run_id)) (ground arith))

  dispatch-Step :
      (d : DispatchRecord) (next : DurableRunState)
      → apply_dispatch s d ≡ ok next
      → Step.Step s (record_dispatch d) next
  unfolding apply_dispatch admit_dispatch
  dispatch-Step d next h = elim (Option-cases (Map.get s.intents d.operation_id)) [
    | inl e ↦ ground arith
    | inr (i, e) ↦ elim (Option-cases (Map.get s.admissions d.attempt_id)) [
      | inl k ↦ ground arith
      | inr (x, k) ↦
          let eq : Step.with_dispatch s d ≡ next = ground arith in
          subst (λ n. Step.Step s (record_dispatch d) n) eq
            (Step.dispatched d
              (record {
                intent = i;
                admission = x;
                intended = e;
                admitted = k;
                operation = ground (arith, is_operation_iff x.operation_id d.operation_id);
                task = ground (arith, ==_iff i.task_id x.task_id);
              })
              (ground arith) (ground arith))
    ]
  ]

  intent-Step :
      (i : EffectIntent) (next : DurableRunState)
      → apply_intent s i ≡ ok next
      → Step.Step s (record_intent i) next
  unfolding apply_intent
  intent-Step i next h = elim (Option-cases (Map.get s.intents i.operation_id)) [
    | inl e ↦ elim (Option-cases (Map.get s.task_operations i.task_id)) [
      | inl k ↦
          let eq : Step.with_intent s i ≡ next = ground arith in
          subst (λ n. Step.Step s (record_intent i) n) eq (Step.intended i e k)
      | inr (op, k) ↦ ground arith
    ]
    | inr (existing, e) ↦
        let eq : s ≡ next = ground arith in
        subst (λ n. Step.Step s (record_intent i) n) eq
          (Step.intent_kept i (ground (arith, same_intent_iff existing i)))
  ]

  operation_lineage_lem :
      (c : CancellationRecord) → operation_lineage s c ≡ true → Step.NamesOperation s c
  operation_lineage_lem c h op e =
      is_operation_iff (Map.get s.task_operations c.task_id) op (ground arith)

  same_operation_lem : (a b : Option OperationId) → same_operation a b ≡ true → a ≡ b
  same_operation_lem none none h = refl
  same_operation_lem none (some b) h = cc
  same_operation_lem (some a) none h = cc
  same_operation_lem (some a) (some b) h = ground (arith, ==_iff a b)

  attempt_lineage_lem :
      (c : CancellationRecord) → attempt_lineage s c ≡ true → Step.NamesAttempt s c
  attempt_lineage_lem c h a e = elim (Option-cases (Map.get s.admissions a)) [
    | inl k ↦ ground arith
    | inr (x, k) ↦ (
      x,
      k,
      ground (arith, ==_iff x.task_id c.task_id),
      same_operation_lem x.operation_id c.operation_id (ground arith),
    )
  ]

  cancellation-Step :
      (c : CancellationRecord) (next : DurableRunState)
      → apply_cancellation s c ≡ ok next
      → Step.Step s (record_cancellation c) next
  unfolding apply_cancellation
  cancellation-Step c next h = elim (Option-cases (Map.get s.cancellations c.task_id)) [
    | inl e ↦
        let eq : Step.with_cancellation s c ≡ next = ground arith in
        subst (λ n. Step.Step s (record_cancellation c) n) eq
          (Step.cancelled c (ground (arith, ==_iff c.run_id s.run_id)) e
            (operation_lineage_lem c (ground arith)) (attempt_lineage_lem c (ground arith)))
    | inr (existing, e) ↦
        let eq : s ≡ next = ground arith in
        subst (λ n. Step.Step s (record_cancellation c) n) eq
          (Step.cancellation_kept c (ground (arith, ==_iff c.run_id s.run_id))
            (ground (arith, same_cancellation_iff existing c)))
  ]

  outcome-Step :
      (o : OutcomeRecord) (next : DurableRunState)
      → apply_outcome s o ≡ ok next
      → Step.Step s (record_outcome o) next
  unfolding apply_outcome settle_outcome
  outcome-Step o next h = elim (Option-cases (Map.get s.admissions o.attempt_id)) [
    | inl e ↦ ground arith
    | inr (x, e) ↦ elim (Option-cases (Map.get s.dispatches o.attempt_id)) [
      | inl k ↦ ground arith
      | inr (d, k) ↦
          let evidence : Step.IsDispatched s o = record {
            admission = x;
            dispatch = d;
            admitted = e;
            dispatched = k;
            operation = ground (arith, is_operation_iff x.operation_id o.operation_id);
            target = ground (arith, ==_iff d.operation_id o.operation_id);
          } in
          elim (Option-cases (Map.get s.outcomes o.attempt_id)) [
            | inl l ↦
                let eq : Step.with_outcome s o ≡ next = ground arith in
                subst (λ n. Step.Step s (record_outcome o) n) eq (Step.settled o evidence l)
            | inr (existing, l) ↦
                let eq : s ≡ next = ground arith in
                subst (λ n. Step.Step s (record_outcome o) n) eq
                  (Step.outcome_kept o existing evidence l
                    (ground (arith, same_outcome_iff existing.outcome o.outcome)))
          ]
    ]
  ]

  missing_evidence_lem :
      (c : CompletionRecord) (op : OperationId)
      → missing_evidence s c op ≡ none
      → Step.HasSucceeded s c.attempt_id op × Step.IsLatest s c.attempt_id op
  unfolding missing_evidence
  missing_evidence_lem c op h = elim (Option-cases (Map.get s.dispatches c.attempt_id)) [
    | inl e ↦ ground arith
    | inr (d, e) ↦ elim (Option-cases (latest_dispatch s op)) [
      | inl k ↦ ground arith
      | inr (latest, k) ↦ elim (Option-cases (Map.get s.outcomes c.attempt_id)) [
        | inl l ↦ ground arith
        | inr (o, l) ↦ (
          record {
            dispatch = d;
            outcome = o;
            intended = ground arith;
            dispatched = e;
            target = ground (arith, ==_iff d.operation_id op);
            known = l;
            success = ground (arith, same_outcome_iff o.outcome succeeded);
          },
          (latest, k, ground (arith, ==_iff latest.attempt_id c.attempt_id)),
        )
      ]
    ]
  ]

  completion-Step :
      (c : CompletionRecord) (next : DurableRunState)
      → apply_completion s c ≡ ok next
      → Step.Step s (record_completion c) next
  unfolding apply_completion settle_completion
  completion-Step c next h = elim (Option-cases (Map.get s.admissions c.attempt_id)) [
    | inl e ↦ ground arith
    | inr (x, e) ↦
        let complete : lacks s c x.operation_id ≡ none = ground arith in
        let found : (op : OperationId)
            → x.operation_id ≡ some op
            → Step.HasSucceeded s c.attempt_id op × Step.IsLatest s c.attempt_id op =
          λ op k. missing_evidence_lem c op (subst (λ v. lacks s c v ≡ none) k complete) in
        let evidence : Step.HasEvidence s c = record {
          admission = x;
          admitted = e;
          task = ground (arith, ==_iff x.task_id c.task_id);
          effect = λ op k. (found op k).0;
        } in
        elim (Option-cases (Map.get s.completions c.task_id)) [
          | inl l ↦
              let eq : Step.with_completion s c ≡ next = ground arith in
              subst (λ n. Step.Step s (record_completion c) n) eq
                (Step.completed c evidence (λ op k. (found op k).1) l)
          | inr (existing, l) ↦
              let eq : s ≡ next = ground arith in
              subst (λ n. Step.Step s (record_completion c) n) eq
                (Step.completion_kept c evidence (λ op k. (found op k).1)
                  (ground (arith, same_completion_iff existing c)))
        ]
  ]

  pub apply_mutation-Step :
      (m : DurableMutation) (next : DurableRunState)
      → apply_mutation s m ≡ ok next
      → Step.Step s m next
  unfolding apply_mutation
  apply_mutation-Step (record_workflow_replay_identity x) next h = identity-Step x next h
  apply_mutation-Step (admit_attempt x) next h = admission-Step x next h
  apply_mutation-Step (record_intent x) next h = intent-Step x next h
  apply_mutation-Step (record_cancellation x) next h = cancellation-Step x next h
  apply_mutation-Step (record_dispatch x) next h = dispatch-Step x next h
  apply_mutation-Step (record_outcome x) next h = outcome-Step x next h
  apply_mutation-Step (record_completion x) next h = completion-Step x next h
