-- ===== src/Recovery/Durable/Keeps.antt =====
-- What a step has recorded stays: facts are never changed or removed.
use kernis.Base.{◌≡◌, refl, ◌∙◌, true, none, some, arith, Ord, ==_iff, Option-cases, inl, inr}
use kernis.Core.{id_ord}
use kernis.BTree.Map
use kernis.BTree.Map.{Map}
use kernis.Recovery.Model.{OperationId, AttemptId, DispatchRecord, OutcomeRecord}
use kernis.Recovery.Durable.Facts.{CancellationRecord, CompletionRecord, DurableMutation}
use kernis.Recovery.Durable.State.{DurableRunState}
use kernis.Recovery.Durable.Step
use kernis.Recovery.Durable.Step.{Step}

-- Every entry of the first map is one of the second.
abbrev pub Extends {ℓ κ} : {K : Type ℓ} {V : Type κ} ⦃o : Ord K⦄ → Map K V → Map K V → Type (ℓ ⊔ κ)
Extends {K = K} {V = V} m n = (k : K) (v : V) → Map.get m k ≡ some v → Map.get n k ≡ some v

pub insert-Extends {ℓ κ} :
    {K : Type ℓ} {V : Type κ} ⦃o : Ord K⦄ (m : Map K V) (k : K) (v : V)
    → Map.get m k ≡ none
    → Extends m (Map.insert m k v)
insert-Extends m k v fresh j w h = ground (arith, Map.get-insert m k v j, ==_iff k j)

abbrev pub same_entries {ℓ κ} : {K : Type ℓ} {V : Type κ} ⦃o : Ord K⦄ (m : Map K V) → Extends m m
same_entries m k v h = h

pub record Keeps (s next : DurableRunState) : Type 0 where
  pub run_id : next.run_id ≡ s.run_id
  pub admissions : Extends s.admissions next.admissions
  pub intents : Extends s.intents next.intents
  pub task_operations : Extends s.task_operations next.task_operations
  pub cancellations : Extends s.cancellations next.cancellations
  pub dispatches : Extends s.dispatches next.dispatches
  pub outcomes : Extends s.outcomes next.outcomes
  pub completions : Extends s.completions next.completions

pub Keeps-refl : (s : DurableRunState) → Keeps s s
Keeps-refl s = record {
  run_id = refl;
  admissions = same_entries _;
  intents = same_entries _;
  task_operations = same_entries _;
  cancellations = same_entries _;
  dispatches = same_entries _;
  outcomes = same_entries _;
  completions = same_entries _;
}

pub Keeps-trans : {s mid next : DurableRunState} → Keeps s mid → Keeps mid next → Keeps s next
Keeps-trans p q = record {
  run_id = q.run_id ∙ p.run_id;
  admissions = λ k v h. q.admissions k v (p.admissions k v h);
  intents = λ k v h. q.intents k v (p.intents k v h);
  task_operations = λ k v h. q.task_operations k v (p.task_operations k v h);
  cancellations = λ k v h. q.cancellations k v (p.cancellations k v h);
  dispatches = λ k v h. q.dispatches k v (p.dispatches k v h);
  outcomes = λ k v h. q.outcomes k v (p.outcomes k v h);
  completions = λ k v h. q.completions k v (p.completions k v h);
}

pub Step-Keeps :
    {s : DurableRunState} (m : DurableMutation) (next : DurableRunState)
    → Step s m next
    → Keeps s next
Step-Keeps {s} _ _ (Step.identified identity h) = record {
  run_id = refl;
  admissions = same_entries _;
  intents = same_entries _;
  task_operations = same_entries _;
  cancellations = same_entries _;
  dispatches = same_entries _;
  outcomes = same_entries _;
  completions = same_entries _;
}
Step-Keeps {s} _ _ (Step.admitted x h k) = record {
  run_id = refl;
  admissions = insert-Extends s.admissions x.attempt_id x k;
  intents = same_entries _;
  task_operations = same_entries _;
  cancellations = same_entries _;
  dispatches = same_entries _;
  outcomes = same_entries _;
  completions = same_entries _;
}
Step-Keeps {s} _ _ (Step.intent_kept i h) = Keeps-refl s
Step-Keeps {s} _ _ (Step.intended i h k) = record {
  run_id = refl;
  admissions = same_entries _;
  intents = insert-Extends s.intents i.operation_id i h;
  task_operations = insert-Extends s.task_operations i.task_id i.operation_id k;
  cancellations = same_entries _;
  dispatches = same_entries _;
  outcomes = same_entries _;
  completions = same_entries _;
}
Step-Keeps {s} _ _ (Step.cancellation_kept c h k) = Keeps-refl s
Step-Keeps {s} _ _ (Step.cancelled c h k op a) = record {
  run_id = refl;
  admissions = same_entries _;
  intents = same_entries _;
  task_operations = same_entries _;
  cancellations = insert-Extends s.cancellations c.task_id c k;
  dispatches = same_entries _;
  outcomes = same_entries _;
  completions = same_entries _;
}
Step-Keeps {s} _ _ (Step.dispatched d h k l) = record {
  run_id = refl;
  admissions = same_entries _;
  intents = same_entries _;
  task_operations = same_entries _;
  cancellations = same_entries _;
  dispatches = insert-Extends s.dispatches d.attempt_id d l;
  outcomes = same_entries _;
  completions = same_entries _;
}
Step-Keeps {s} _ _ (Step.outcome_kept o existing h k l) = Keeps-refl s
Step-Keeps {s} _ _ (Step.settled o h k) = record {
  run_id = refl;
  admissions = same_entries _;
  intents = same_entries _;
  task_operations = same_entries _;
  cancellations = same_entries _;
  dispatches = same_entries _;
  outcomes = insert-Extends s.outcomes o.attempt_id o k;
  completions = same_entries _;
}
Step-Keeps {s} _ _ (Step.completion_kept c h k l) = Keeps-refl s
Step-Keeps {s} _ _ (Step.completed c h k l) = record {
  run_id = refl;
  admissions = same_entries _;
  intents = same_entries _;
  task_operations = same_entries _;
  cancellations = same_entries _;
  dispatches = same_entries _;
  outcomes = same_entries _;
  completions = insert-Extends s.completions c.task_id c l;
}

module _ {s next : DurableRunState} (h : Keeps s next) where
  pub Keeps-contains :
      {K V : Type 0} ⦃o : Ord K⦄ (m n : Map K V)
      → Extends m n
      → (k : K) → Map.contains_key m k ≡ true
      → Map.contains_key n k ≡ true
  Keeps-contains m n e k p = elim (Option-cases (Map.get m k)) [
    | inl q ↦ ground arith
    | inr (v, q) ↦ ground (arith, e k v q)
  ]

  pub Keeps-IsAdmitted : (d : DispatchRecord) → Step.IsAdmitted s d → Step.IsAdmitted next d
  Keeps-IsAdmitted d p = record {
    intent = p.intent;
    admission = p.admission;
    intended = h.intents d.operation_id p.intent p.intended;
    admitted = h.admissions d.attempt_id p.admission p.admitted;
    operation = p.operation;
    task = p.task;
  }

  pub Keeps-IsDispatched : (o : OutcomeRecord) → Step.IsDispatched s o → Step.IsDispatched next o
  Keeps-IsDispatched o p = record {
    admission = p.admission;
    dispatch = p.dispatch;
    admitted = h.admissions o.attempt_id p.admission p.admitted;
    dispatched = h.dispatches o.attempt_id p.dispatch p.dispatched;
    operation = p.operation;
    target = p.target;
  }

  pub Keeps-HasSucceeded :
      (a : AttemptId) (op : OperationId) → Step.HasSucceeded s a op → Step.HasSucceeded next a op
  Keeps-HasSucceeded a op p = record {
    dispatch = p.dispatch;
    outcome = p.outcome;
    intended = Keeps-contains s.intents next.intents h.intents op p.intended;
    dispatched = h.dispatches a p.dispatch p.dispatched;
    target = p.target;
    known = h.outcomes a p.outcome p.known;
    success = p.success;
  }

  pub Keeps-HasEvidence : (c : CompletionRecord) → Step.HasEvidence s c → Step.HasEvidence next c
  Keeps-HasEvidence c p = record {
    admission = p.admission;
    admitted = h.admissions c.attempt_id p.admission p.admitted;
    task = p.task;
    effect = λ op k. Keeps-HasSucceeded c.attempt_id op (p.effect op k);
  }

  pub Keeps-NamesOperation :
      (c : CancellationRecord) → Step.NamesOperation s c → Step.NamesOperation next c
  Keeps-NamesOperation c p op k = h.task_operations c.task_id op (p op k)

  pub Keeps-NamesAttempt :
      (c : CancellationRecord) → Step.NamesAttempt s c → Step.NamesAttempt next c
  Keeps-NamesAttempt c p a k =
      let (x, admitted, task, operation) = p a k in (x, h.admissions a x admitted, task, operation)
