-- ===== src/Recovery/Durable/View/Agree.antt =====
-- The journal of a durable run answers as the run does.
use kernis.Base.{
  ◌≡◌, refl, sym, ap, ◌∙◌, none, some, ok, err, arith, Option-cases, inl, inr, ==_iff,
}
use kernis.Core.{id_ord}
use kernis.BTree.Map
use kernis.BTree.Map.{Map}
use kernis.Recovery.Model.{OperationId, AttemptId, EffectIntent, DispatchRecord}
use kernis.Recovery.Journal
use kernis.Recovery.Journal.{DurableJournal, JournalError}
use kernis.Recovery.Durable.State
use kernis.Recovery.Durable.State.{
  DurableRunState, effect_state, latest_outcome, outcome_for_attempt,
}
use kernis.Recovery.Durable.Index.{IsIndexed, values-IsIndexed}
use kernis.Recovery.Durable.Consistent.{IsConsistent}
use kernis.Recovery.Durable.View.{from_durable_state}
use kernis.Recovery.Durable.View.Intents
use kernis.Recovery.Durable.View.Dispatches
use kernis.Recovery.Durable.View.Outcomes

-- The journal answers every query on an operation as the run does.
pub record Agrees (s : DurableRunState) (j : DurableJournal) : Type 0 where
  pub intent :
      (op : OperationId)
      → Journal.intent j op ≡ elim (State.intent s op) [
        | none ↦ err (JournalError.unknown_operation op)
        | some i ↦ ok i
      ]
  pub latest_dispatch :
      (op : OperationId) → Journal.latest_dispatch j op ≡ State.latest_dispatch s op
  pub known_outcome : (op : OperationId) → Journal.known_outcome j op ≡ latest_outcome s op
  pub state : (op : OperationId) → Journal.state j op ≡ effect_state s op

module _ (s : DurableRunState) (h : IsConsistent s) where
  intents-IsIndexed : IsIndexed (λ i. i.operation_id) (Map.values s.intents) s.intents
  intents-IsIndexed =
      values-IsIndexed (λ i. i.operation_id) s.intents h.tasks.distinct h.tasks.intent_key

  -- A task has one operation.
  one_operation :
      (op op' : OperationId) (i i' : EffectIntent)
      → Map.get s.intents op ≡ some i
      → Map.get s.intents op' ≡ some i'
      → i.task_id ≡ i'.task_id
      → op ≡ op'
  one_operation op op' i i' k l same = elim (Option-cases (Map.get s.task_operations i.task_id)) [
    | inl e ↦ ground (arith, h.tasks.tasks_agree i.task_id op, ==_iff i.task_id i.task_id)
    | inr (owner, e) ↦ ground (
      arith,
      h.tasks.tasks_agree i.task_id op,
      h.tasks.tasks_agree i.task_id op',
      ==_iff i.task_id i.task_id,
      ==_iff i'.task_id i.task_id,
      ==_iff owner op,
      ==_iff owner op',
    )
  ]

  intents-IsFresh : Intents.IsFresh (Map.values s.intents) Journal.new
  unfolding Map.get
  intents-IsFresh = record {
    distinct = intents-IsIndexed.distinct;
    unknown = λ op i e. (refl, refl);
    tasks = λ op op' i i' k l same.
        one_operation op op' i i' (sym (intents-IsIndexed.entries op) ∙ k)
          (sym (intents-IsIndexed.entries op') ∙ l) same;
  }

  dispatches-IsFresh :
      (j : DurableJournal)
      → Intents.Intends (Map.values s.intents) Journal.new j
      → Dispatches.IsFresh s.dispatch_history j
  unfolding Map.get
  dispatches-IsFresh j k = record {
    distinct = h.dispatches.distinct;
    unknown = λ a d e. ap (λ m. Map.get m a) k.dispatches;
    intended = λ a d e.
        let p = h.dispatch_admitted a d (sym (h.dispatches.entries a) ∙ e) in
        ground
          (arith, p.intended, k.intents d.operation_id, intents-IsIndexed.entries d.operation_id);
  }

  outcomes-IsFresh :
      (j next : DurableJournal)
      → Intents.Intends (Map.values s.intents) Journal.new j
      → Dispatches.Dispatches s.dispatch_history j next
      → Outcomes.IsFresh s.outcome_history next
  unfolding Map.get
  outcomes-IsFresh j next k l = record {
    distinct = h.outcomes.distinct;
    unknown = λ a o e. ap (λ m. Map.get m a) (l.outcomes ∙ k.outcomes);
    awaited = λ a o e.
        let p = h.outcome_dispatched a o (sym (h.outcomes.entries a) ∙ e) in
        let q = h.dispatch_admitted o.attempt_id p.dispatch p.dispatched in
        record {
          dispatch = p.dispatch;
          intended = ground (
            arith,
            p.target,
            q.intended,
            l.intents,
            k.intents o.operation_id,
            intents-IsIndexed.entries o.operation_id,
          );
          dispatched =
              ground
                (arith, p.dispatched, l.dispatches o.attempt_id, h.dispatches.entries o.attempt_id);
          target = p.target;
        };
  }

  latest_dispatch-entry :
      (op : OperationId) (d : DispatchRecord)
      → State.latest_dispatch s op ≡ some d
      → Map.get s.dispatches d.attempt_id ≡ some d
  unfolding State.latest_dispatch
  latest_dispatch-entry op d e =
      sym (h.dispatches.entries d.attempt_id)
      ∙ Dispatches.latest_of-entry s.dispatch_history op d h.dispatches.distinct e

  -- The maps of the journal, by those of the run.
  record Copies (j : DurableJournal) : Type 0 where
    intents : (op : OperationId) → Map.get j.intents op ≡ Map.get s.intents op
    dispatches : (a : AttemptId) → Map.get j.dispatches a ≡ Map.get s.dispatches a
    outcomes : (a : AttemptId) → Map.get j.outcomes a ≡ Map.get s.outcomes a
    latest :
        (op : OperationId)
        → Journal.latest_attempt j op
          ≡ elim (State.latest_dispatch s op) [ none ↦ none | some d ↦ some d.attempt_id ]

  loops-Copies :
      (j next last : DurableJournal)
      → Intents.Intends (Map.values s.intents) Journal.new j
      → Dispatches.Dispatches s.dispatch_history j next
      → Outcomes.Settles s.outcome_history next last
      → Copies last
  unfolding Map.get Journal.latest_attempt State.latest_dispatch
  loops-Copies j next last k l m = record {
    intents =
        λ op. ground (arith, m.intents, l.intents, k.intents op, intents-IsIndexed.entries op);
    dispatches =
        λ a. ground (arith, m.dispatches, l.dispatches a, k.dispatches, h.dispatches.entries a);
    outcomes = λ a. ground (arith, m.outcomes a, l.outcomes, k.outcomes, h.outcomes.entries a);
    latest = λ op. ground (arith, m.attempts, l.latest op, k.attempts);
  }

  Copies-Agrees : (j : DurableJournal) → Copies j → Agrees s j
  unfolding Journal.intent State.intent Journal.latest_dispatch Journal.known_outcome latest_outcome
      Journal.state effect_state outcome_for_attempt
  Copies-Agrees j c =
      let dispatched : (op : OperationId)
          → Journal.latest_dispatch j op ≡ State.latest_dispatch s op =
        λ op. elim (Option-cases (State.latest_dispatch s op)) [
          | inl e ↦ ground (arith, c.latest op)
          | inr (d, e) ↦
              ground (arith, c.latest op, c.dispatches d.attempt_id, latest_dispatch-entry op d e)
        ] in
      let known : (op : OperationId) → Journal.known_outcome j op ≡ latest_outcome s op = λ op.
        elim (Option-cases (State.latest_dispatch s op)) [
          | inl e ↦ ground (arith, c.latest op)
          | inr (d, e) ↦ ground (arith, c.latest op, c.outcomes d.attempt_id)
        ] in
      record {
        intent = λ op. rw (c.intents op, Journal.intent) refl;
        latest_dispatch = dispatched;
        known_outcome = known;
        state = λ op. ground (arith, c.intents op, dispatched op, known op);
      }

  -- The journal that is rebuilt from a run whose facts are consistent is never refused, and it
  -- answers as the run does: the intent of every operation, its latest dispatch, the outcome of that,
  -- and the state that recovery starts from.
  pub from_durable_state-Agrees : (j : DurableJournal) × (from_durable_state s ≡ ok j) × Agrees s j
  unfolding from_durable_state State.intents
  from_durable_state-Agrees =
      let (j, e, k) =
        Intents.persist_intents-Intends (Map.values s.intents) Journal.new intents-IsFresh in
      let (next, f, l) =
        Dispatches.persist_dispatches-Dispatches s.dispatch_history j (dispatches-IsFresh j k) in
      let (last, g, m) =
        Outcomes.persist_outcomes-Settles s.outcome_history next (outcomes-IsFresh j next k l) in
      (last, ground (arith, e, f, g), Copies-Agrees last (loops-Copies j next last k l m))
