-- ===== src/Recovery/Durable/Consistent.antt =====
-- The facts of a run agree with one another, and every mutation keeps them so.
use kernis.Base.{
  ◌≡◌, refl, sym, ◌∙◌, subst, Bool, true, false, none, some, arith, Ord, ◌==◌, ==_iff, inl, inr,
  Bool-cases,
}
use kernis.Core.{TextId, id_ord}
use kernis.BTree.Map
use kernis.BTree.Map.{Map}
use kernis.Recovery.Model.{OperationId, AttemptId, EffectIntent, DispatchRecord, OutcomeRecord}
use kernis.Recovery.Durable.Facts.{
  RunId, AttemptAdmission, CancellationRecord, CompletionRecord, DurableMutation,
}
use kernis.Recovery.Durable.State.{DurableRunState, new}
use kernis.Recovery.Durable.Step
use kernis.Recovery.Durable.Step.{Step}
use kernis.Recovery.Durable.Index
use kernis.Recovery.Durable.Index.{IsIndexed}
use kernis.Recovery.Durable.Keeps.{
  Keeps, Step-Keeps, Keeps-IsAdmitted, Keeps-IsDispatched, Keeps-HasEvidence, Keeps-NamesOperation,
  Keeps-NamesAttempt,
}

abbrev pub owned_by : DurableRunState → TextId → OperationId → Bool
owned_by s t op = elim (Map.get s.task_operations t) [ none ↦ false | some o ↦ o == op ]

abbrev pub intended_for : DurableRunState → OperationId → TextId → Bool
intended_for s op t = elim (Map.get s.intents op) [ none ↦ false | some i ↦ i.task_id == t ]

-- The three maps that are written without a history or together.
pub record OwnsTasks (s : DurableRunState) : Type 0 where
  pub intent_key :
      (op : OperationId) (i : EffectIntent) → Map.get s.intents op ≡ some i → i.operation_id ≡ op
  pub distinct : Index.unique (Map.keys s.intents) ≡ true
  -- Tasks and operations belong to each other one to one.
  pub tasks_agree : (t : TextId) (op : OperationId) → owned_by s t op ≡ intended_for s op t

-- A cancellation stands under its task, in its own run, with a lineage.
pub record IsCancellation (s : DurableRunState) (t : TextId) (c : CancellationRecord) : Type 0 where
  pub key : c.task_id ≡ t
  pub run : c.run_id ≡ s.run_id
  pub operation : Step.NamesOperation s c
  pub attempt : Step.NamesAttempt s c

pub record IsConsistent (s : DurableRunState) : Type 0 where
  -- The histories and the maps hold the same facts, each once.
  pub admissions : IsIndexed (λ x. x.attempt_id) s.admission_history s.admissions
  pub dispatches : IsIndexed (λ d. d.attempt_id) s.dispatch_history s.dispatches
  pub outcomes : IsIndexed (λ o. o.attempt_id) s.outcome_history s.outcomes
  pub completions : IsIndexed (λ c. c.task_id) s.completion_history s.completions
  pub tasks : OwnsTasks s
  pub own_run :
      (a : AttemptId) (x : AttemptAdmission) → Map.get s.admissions a ≡ some x → x.run_id ≡ s.run_id
  pub cancelled :
      (t : TextId) (c : CancellationRecord)
      → Map.get s.cancellations t ≡ some c
      → IsCancellation s t c
  pub dispatch_admitted :
      (a : AttemptId) (d : DispatchRecord) → Map.get s.dispatches a ≡ some d → Step.IsAdmitted s d
  pub outcome_dispatched :
      (a : AttemptId) (o : OutcomeRecord) → Map.get s.outcomes a ≡ some o → Step.IsDispatched s o
  pub completion_evidence :
      (t : TextId) (c : CompletionRecord) → Map.get s.completions t ≡ some c → Step.HasEvidence s c

pub new-IsConsistent : (run_id : RunId) → IsConsistent (new run_id)
unfolding Map.get
new-IsConsistent run_id = record {
  admissions = Index.nil-IsIndexed (λ x. x.attempt_id);
  dispatches = Index.nil-IsIndexed (λ d. d.attempt_id);
  outcomes = Index.nil-IsIndexed (λ o. o.attempt_id);
  completions = Index.nil-IsIndexed (λ c. c.task_id);
  tasks = record { intent_key = λ op i e. cc; distinct = refl; tasks_agree = λ t op. refl };
  own_run = λ a x e. cc;
  cancelled = λ t c e. cc;
  dispatch_admitted = λ a d e. cc;
  outcome_dispatched = λ a o e. cc;
  completion_evidence = λ t c e. cc;
}

-- A property of the entries of a map is one of those after an insertion.
pub insert-all {ℓ κ μ} :
    {K : Type ℓ} {V : Type κ} ⦃o : Ord K⦄ (P : K → V → Type μ) (m : Map K V) (k : K) (v : V)
    → P k v
    → ((j : K) (w : V) → Map.get m j ≡ some w → P j w)
    → (j : K) (w : V) → Map.get (Map.insert m k v) j ≡ some w
    → P j w
insert-all P m k v p h j w e = elim (Bool-cases (k == j)) [
  | inl eq ↦
      let same : v ≡ w = ground (arith, Map.get-insert m k v j) in
      subst (λ x. P x w) ((==_iff k j).0 eq) (subst (λ x. P k x) same p)
  | inr ne ↦ h j w (ground (arith, Map.get-insert m k v j))
]

module _ (s : DurableRunState) (h : IsConsistent s) where
  with_intent-OwnsTasks :
      (i : EffectIntent)
      → Map.get s.intents i.operation_id ≡ none
      → Map.get s.task_operations i.task_id ≡ none
      → OwnsTasks (Step.with_intent s i)
  with_intent-OwnsTasks i k l = record {
    intent_key = λ op i' e. ground (
      arith,
      h.tasks.intent_key op i',
      Map.get-insert s.intents i.operation_id i op,
      ==_iff i.operation_id op,
    );
    distinct = Index.unique-insert s.intents i.operation_id i k h.tasks.distinct;
    tasks_agree = λ t op. ground (
      arith,
      h.tasks.tasks_agree t op,
      Map.get-insert s.intents i.operation_id i op,
      Map.get-insert s.task_operations i.task_id i.operation_id t,
      ==_iff i.operation_id op,
      ==_iff i.task_id t,
    );
  }

  module _ (next : DurableRunState) (k : Keeps s next) where
    -- The lineage of the facts that were there before.
    pub old_cancelled :
        (t : TextId) (c : CancellationRecord)
        → Map.get s.cancellations t ≡ some c
        → IsCancellation next t c
    old_cancelled t c e =
        let old = h.cancelled t c e in
        record {
          key = old.key;
          run = old.run ∙ sym k.run_id;
          operation = Keeps-NamesOperation k c old.operation;
          attempt = Keeps-NamesAttempt k c old.attempt;
        }

    pub old_dispatch :
        (a : AttemptId) (d : DispatchRecord)
        → Map.get s.dispatches a ≡ some d
        → Step.IsAdmitted next d
    old_dispatch a d e = Keeps-IsAdmitted k d (h.dispatch_admitted a d e)

    pub old_outcome :
        (a : AttemptId) (o : OutcomeRecord)
        → Map.get s.outcomes a ≡ some o
        → Step.IsDispatched next o
    old_outcome a o e = Keeps-IsDispatched k o (h.outcome_dispatched a o e)

    pub old_completion :
        (t : TextId) (c : CompletionRecord)
        → Map.get s.completions t ≡ some c
        → Step.HasEvidence next c
    old_completion t c e = Keeps-HasEvidence k c (h.completion_evidence t c e)

-- A step keeps the facts consistent.
pub Step-IsConsistent :
    (s : DurableRunState) (m : DurableMutation) (next : DurableRunState)
    → Step s m next
    → IsConsistent s
    → IsConsistent next
Step-IsConsistent s _ _ (Step.identified x e) h =
    let next = Step.with_identity s x in
    let k = Step-Keeps _ next (Step.identified x e) in
    record {
      admissions = h.admissions;
      dispatches = h.dispatches;
      outcomes = h.outcomes;
      completions = h.completions;
      tasks = record {
        intent_key = h.tasks.intent_key;
        distinct = h.tasks.distinct;
        tasks_agree = h.tasks.tasks_agree;
      };
      own_run = h.own_run;
      cancelled = old_cancelled s h next k;
      dispatch_admitted = old_dispatch s h next k;
      outcome_dispatched = old_outcome s h next k;
      completion_evidence = old_completion s h next k;
    }
Step-IsConsistent s _ _ (Step.admitted x e f) h =
    let next = Step.with_admission s x in
    let k = Step-Keeps _ next (Step.admitted x e f) in
    record {
      admissions =
          Index.append-IsIndexed (λ y. y.attempt_id) s.admission_history s.admissions h.admissions x
            f;
      dispatches = h.dispatches;
      outcomes = h.outcomes;
      completions = h.completions;
      tasks = record {
        intent_key = h.tasks.intent_key;
        distinct = h.tasks.distinct;
        tasks_agree = h.tasks.tasks_agree;
      };
      own_run = insert-all (λ a y. y.run_id ≡ s.run_id) s.admissions x.attempt_id x e h.own_run;
      cancelled = old_cancelled s h next k;
      dispatch_admitted = old_dispatch s h next k;
      outcome_dispatched = old_outcome s h next k;
      completion_evidence = old_completion s h next k;
    }
Step-IsConsistent s _ _ (Step.intent_kept x e) h = h
Step-IsConsistent s _ _ (Step.intended x e f) h =
    let next = Step.with_intent s x in
    let k = Step-Keeps _ next (Step.intended x e f) in
    record {
      admissions = h.admissions;
      dispatches = h.dispatches;
      outcomes = h.outcomes;
      completions = h.completions;
      tasks = with_intent-OwnsTasks s h x e f;
      own_run = h.own_run;
      cancelled = old_cancelled s h next k;
      dispatch_admitted = old_dispatch s h next k;
      outcome_dispatched = old_outcome s h next k;
      completion_evidence = old_completion s h next k;
    }
Step-IsConsistent s _ _ (Step.cancellation_kept c e f) h = h
Step-IsConsistent s _ _ (Step.cancelled c e f op a) h =
    let next = Step.with_cancellation s c in
    let k = Step-Keeps _ next (Step.cancelled c e f op a) in
    record {
      admissions = h.admissions;
      dispatches = h.dispatches;
      outcomes = h.outcomes;
      completions = h.completions;
      tasks = record {
        intent_key = h.tasks.intent_key;
        distinct = h.tasks.distinct;
        tasks_agree = h.tasks.tasks_agree;
      };
      own_run = h.own_run;
      cancelled =
          insert-all (IsCancellation next) s.cancellations c.task_id c
            (record { key = refl; run = e; operation = op; attempt = a })
            (old_cancelled s h next k);
      dispatch_admitted = old_dispatch s h next k;
      outcome_dispatched = old_outcome s h next k;
      completion_evidence = old_completion s h next k;
    }
Step-IsConsistent s _ _ (Step.dispatched d p e f) h =
    let next = Step.with_dispatch s d in
    let k = Step-Keeps _ next (Step.dispatched d p e f) in
    record {
      admissions = h.admissions;
      dispatches =
          Index.append-IsIndexed (λ y. y.attempt_id) s.dispatch_history s.dispatches h.dispatches d
            f;
      outcomes = h.outcomes;
      completions = h.completions;
      tasks = record {
        intent_key = h.tasks.intent_key;
        distinct = h.tasks.distinct;
        tasks_agree = h.tasks.tasks_agree;
      };
      own_run = h.own_run;
      cancelled = old_cancelled s h next k;
      dispatch_admitted =
          insert-all (λ a y. Step.IsAdmitted next y) s.dispatches d.attempt_id d
            (Keeps-IsAdmitted k d p) (old_dispatch s h next k);
      outcome_dispatched = old_outcome s h next k;
      completion_evidence = old_completion s h next k;
    }
Step-IsConsistent s _ _ (Step.outcome_kept o x p e f) h = h
Step-IsConsistent s _ _ (Step.settled o p e) h =
    let next = Step.with_outcome s o in
    let k = Step-Keeps _ next (Step.settled o p e) in
    record {
      admissions = h.admissions;
      dispatches = h.dispatches;
      outcomes =
          Index.append-IsIndexed (λ y. y.attempt_id) s.outcome_history s.outcomes h.outcomes o e;
      completions = h.completions;
      tasks = record {
        intent_key = h.tasks.intent_key;
        distinct = h.tasks.distinct;
        tasks_agree = h.tasks.tasks_agree;
      };
      own_run = h.own_run;
      cancelled = old_cancelled s h next k;
      dispatch_admitted = old_dispatch s h next k;
      outcome_dispatched =
          insert-all (λ a y. Step.IsDispatched next y) s.outcomes o.attempt_id o
            (Keeps-IsDispatched k o p) (old_outcome s h next k);
      completion_evidence = old_completion s h next k;
    }
Step-IsConsistent s _ _ (Step.completion_kept c p l e) h = h
Step-IsConsistent s _ _ (Step.completed c p l e) h =
    let next = Step.with_completion s c in
    let k = Step-Keeps _ next (Step.completed c p l e) in
    record {
      admissions = h.admissions;
      dispatches = h.dispatches;
      outcomes = h.outcomes;
      completions =
          Index.append-IsIndexed (λ y. y.task_id) s.completion_history s.completions h.completions c
            e;
      tasks = record {
        intent_key = h.tasks.intent_key;
        distinct = h.tasks.distinct;
        tasks_agree = h.tasks.tasks_agree;
      };
      own_run = h.own_run;
      cancelled = old_cancelled s h next k;
      dispatch_admitted = old_dispatch s h next k;
      outcome_dispatched = old_outcome s h next k;
      completion_evidence =
          insert-all (λ t y. Step.HasEvidence next y) s.completions c.task_id c
            (Keeps-HasEvidence k c p) (old_completion s h next k);
    }
