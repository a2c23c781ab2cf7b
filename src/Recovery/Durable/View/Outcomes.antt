-- ===== src/Recovery/Durable/View/Outcomes.antt =====
-- The third loop of `from_durable_state` succeeds on distinct outcomes.
use kernis.Base.{◌≡◌, refl, true, Option, none, some, List, [], ◌∷◌, ok, arith, ==_iff}
use kernis.Core.{id_ord}
use kernis.BTree.Map
use kernis.BTree.Map.{Map}
use kernis.Recovery.Model.{AttemptId, DispatchRecord, OutcomeRecord}
use kernis.Recovery.Journal.{DurableJournal, persist_outcome, settle}
use kernis.Recovery.Durable.Index.{entry, keys_of, unique, entry-tail, entry-fresh}
use kernis.Recovery.Durable.View.{persist_outcomes}
use kernis.Recovery.Durable.View.Intents.{or_else}

abbrev pub outcome_of : List OutcomeRecord → AttemptId → Option OutcomeRecord
outcome_of = entry (λ o. o.attempt_id)

-- The attempt of the outcome was dispatched for its operation, which has an intent.
pub record IsAwaited (j : DurableJournal) (o : OutcomeRecord) : Type 0 where
  pub dispatch : DispatchRecord
  pub intended : Map.contains_key j.intents o.operation_id ≡ true
  pub dispatched : Map.get j.dispatches o.attempt_id ≡ some dispatch
  pub target : dispatch.operation_id ≡ o.operation_id

-- The outcomes can be written: their attempts are distinct, dispatched, and without one.
pub record IsFresh (os : List OutcomeRecord) (j : DurableJournal) : Type 0 where
  pub distinct : unique (keys_of (λ o. o.attempt_id) os) ≡ true
  pub unknown :
      (a : AttemptId) (o : OutcomeRecord) → outcome_of os a ≡ some o → Map.get j.outcomes a ≡ none
  pub awaited : (a : AttemptId) (o : OutcomeRecord) → outcome_of os a ≡ some o → IsAwaited j o

pub record Settles (os : List OutcomeRecord) (j next : DurableJournal) : Type 0 where
  pub outcomes :
      (a : AttemptId) → Map.get next.outcomes a ≡ or_else (outcome_of os a) (Map.get j.outcomes a)
  pub intents : next.intents ≡ j.intents
  pub dispatches : next.dispatches ≡ j.dispatches
  pub attempts : next.operation_attempts ≡ j.operation_attempts

abbrev after_outcome : OutcomeRecord → DurableJournal → DurableJournal
after_outcome o j = record j { outcomes = Map.insert j.outcomes o.attempt_id o }

IsFresh-tail :
    (o : OutcomeRecord) (os : List OutcomeRecord) (j : DurableJournal)
    → IsFresh (o ∷ os) j
    → IsFresh os (after_outcome o j)
IsFresh-tail o os j h = record {
  distinct = ground (arith, h.distinct);
  unknown = λ a o' k.
      let (up, ne) = entry-tail (λ x. x.attempt_id) o os a o' h.distinct k in
      ground (
        arith,
        h.unknown a o' up,
        Map.get-insert j.outcomes o.attempt_id o a,
        ==_iff o.attempt_id a,
      );
  awaited = λ a o' k.
      let old = h.awaited a o' (entry-tail (λ x. x.attempt_id) o os a o' h.distinct k).0 in
      record {
        dispatch = old.dispatch;
        intended = old.intended;
        dispatched = old.dispatched;
        target = old.target;
      };
}

pub persist_outcomes-Settles :
    (os : List OutcomeRecord) (j : DurableJournal)
    → IsFresh os j
    → (next : DurableJournal) × (persist_outcomes os j ≡ ok next) × Settles os j next
unfolding persist_outcomes persist_outcome settle
persist_outcomes-Settles [] j h =
    (j, refl, record { outcomes = λ a. refl; intents = refl; dispatches = refl; attempts = refl })
persist_outcomes-Settles (o ∷ os) j h =
    let here : outcome_of (o ∷ os) o.attempt_id ≡ some o =
      ground (arith, ==_iff o.attempt_id o.attempt_id) in
    let awaited = h.awaited o.attempt_id o here in
    let (next, e, rest) = persist_outcomes-Settles os (after_outcome o j) (IsFresh-tail o os j h) in
    let fresh = entry-fresh (λ x. x.attempt_id) o os in
    (
      next,
      ground (
        arith,
        e,
        h.unknown o.attempt_id o here,
        awaited.intended,
        awaited.dispatched,
        awaited.target,
        ==_iff awaited.dispatch.operation_id o.operation_id,
      ),
      record {
        outcomes = λ a. ground (
          arith,
          rest.outcomes a,
          Map.get-insert j.outcomes o.attempt_id o a,
          ==_iff o.attempt_id a,
          fresh a h.distinct,
        );
        intents = rest.intents;
        dispatches = rest.dispatches;
        attempts = rest.attempts;
      },
    )
