-- ===== src/Recovery/Durable/View/Intents.antt =====
-- The first loop of `from_durable_state` succeeds on distinct intents.
use kernis.Base.{◌≡◌, refl, true, Option, none, some, List, [], ◌∷◌, ok, arith, ==_iff}
use kernis.Core.{id_ord}
use kernis.BTree.Map
use kernis.BTree.Map.{Map}
use kernis.Recovery.Model.{OperationId, EffectIntent}
use kernis.Recovery.Journal.{DurableJournal, persist_intent}
use kernis.Recovery.Durable.Index.{entry, keys_of, unique, entry-tail, entry-fresh}
use kernis.Recovery.Durable.View.{persist_intents}

abbrev pub or_else {ℓ} : {A : Type ℓ} → Option A → Option A → Option A
or_else none b = b
or_else (some a) b = some a

abbrev pub intent_of : List EffectIntent → OperationId → Option EffectIntent
intent_of = entry (λ i. i.operation_id)

-- The intents can be written: their operations and tasks are distinct, and new to the journal.
pub record IsFresh (is : List EffectIntent) (j : DurableJournal) : Type 0 where
  pub distinct : unique (keys_of (λ i. i.operation_id) is) ≡ true
  pub unknown :
      (op : OperationId) (i : EffectIntent)
      → intent_of is op ≡ some i
      → (Map.get j.intents op ≡ none) × (Map.get j.task_operations i.task_id ≡ none)
  pub tasks :
      (op op' : OperationId) (i i' : EffectIntent)
      → intent_of is op ≡ some i
      → intent_of is op' ≡ some i'
      → i.task_id ≡ i'.task_id
      → op ≡ op'

-- The journal after the intents.
pub record Intends (is : List EffectIntent) (j next : DurableJournal) : Type 0 where
  pub intents :
      (op : OperationId)
      → Map.get next.intents op ≡ or_else (intent_of is op) (Map.get j.intents op)
  pub dispatches : next.dispatches ≡ j.dispatches
  pub attempts : next.operation_attempts ≡ j.operation_attempts
  pub outcomes : next.outcomes ≡ j.outcomes

IsFresh-tail :
    (i : EffectIntent) (is : List EffectIntent) (j next : DurableJournal)
    → next ≡ (record j {
      task_operations = Map.insert j.task_operations i.task_id i.operation_id;
      intents = Map.insert j.intents i.operation_id i;
    })
    → IsFresh (i ∷ is) j
    → IsFresh is next
IsFresh-tail i is j next e h = record {
  distinct = ground (arith, h.distinct);
  unknown = λ op i' k.
      let (up, ne) = entry-tail (λ x. x.operation_id) i is op i' h.distinct k in
      let here : intent_of (i ∷ is) i.operation_id ≡ some i =
        ground (arith, ==_iff i.operation_id i.operation_id) in
      let other : (i.task_id ≡ i'.task_id) → ⊥ =
        λ same. ne (h.tasks i.operation_id op i i' here up same) in
      let (old, free) = h.unknown op i' up in
      (
        ground (arith, e, Map.get-insert j.intents i.operation_id i op, ==_iff i.operation_id op),
        ground (
          arith,
          e,
          Map.get-insert j.task_operations i.task_id i.operation_id i'.task_id,
          ==_iff i.task_id i'.task_id,
        ),
      );
  tasks = λ op op' a b k l same.
      h.tasks op op' a b (entry-tail (λ x. x.operation_id) i is op a h.distinct k).0
        (entry-tail (λ x. x.operation_id) i is op' b h.distinct l).0 same;
}

pub persist_intents-Intends :
    (is : List EffectIntent) (j : DurableJournal)
    → IsFresh is j
    → (next : DurableJournal) × (persist_intents is j ≡ ok next) × Intends is j next
unfolding persist_intents persist_intent
persist_intents-Intends [] j h =
    (j, refl, record { intents = λ op. refl; dispatches = refl; attempts = refl; outcomes = refl })
persist_intents-Intends (i ∷ is) j h =
    let here : intent_of (i ∷ is) i.operation_id ≡ some i =
      ground (arith, ==_iff i.operation_id i.operation_id) in
    let (old, free) = h.unknown i.operation_id i here in
    let mid : DurableJournal = record j {
      task_operations = Map.insert j.task_operations i.task_id i.operation_id;
      intents = Map.insert j.intents i.operation_id i;
    } in
    let (next, e, rest) = persist_intents-Intends is mid (IsFresh-tail i is j mid refl h) in
    let fresh = entry-fresh (λ x. x.operation_id) i is in
    (
      next,
      ground (arith, e),
      record {
        intents = λ op. ground (
          arith,
          rest.intents op,
          Map.get-insert j.intents i.operation_id i op,
          ==_iff i.operation_id op,
          fresh op h.distinct,
        );
        dispatches = rest.dispatches;
        attempts = rest.attempts;
        outcomes = rest.outcomes;
      },
    )
