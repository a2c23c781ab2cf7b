-- ===== src/Recovery/Durable/View/Dispatches.antt =====
-- The second loop of `from_durable_state` succeeds on distinct dispatches.
use kernis.Base.{
  ◌≡◌, refl, true, Option, none, some, List, [], ◌∷◌, ◌++◌, ok, arith, Option-cases, inl, inr, ◌==◌,
  ==_iff, if◌then◌else◌,
}
use kernis.Core.{id_ord}
use kernis.BTree.Map
use kernis.BTree.Map.{Map}
use kernis.Recovery.Model.{OperationId, AttemptId, DispatchRecord}
use kernis.Recovery.Journal
use kernis.Recovery.Journal.{
  DurableJournal, JournalError, persist_dispatch, push_attempt, latest_attempt,
}
use kernis.Recovery.Durable.State.{filter, last}
use kernis.Recovery.Durable.Index.{entry, keys_of, unique, entry-tail, entry-fresh}
use kernis.Recovery.Durable.View.{persist_dispatches}
use kernis.Recovery.Durable.View.Intents.{or_else}

abbrev pub dispatch_of : List DispatchRecord → AttemptId → Option DispatchRecord
dispatch_of = entry (λ d. d.attempt_id)

-- The last dispatch of the operation.
abbrev pub latest_of : List DispatchRecord → OperationId → Option DispatchRecord
latest_of ds op = last (filter (λ d. d.operation_id == op) ds)

last-cons :
    (d : DispatchRecord) (ds : List DispatchRecord) → last (d ∷ ds) ≡ or_else (last ds) (some d)
last-cons d [] = refl
last-cons d (e ∷ ds) = ground (arith, last-cons e ds)

pub latest_of-cons :
    (d : DispatchRecord) (ds : List DispatchRecord) (op : OperationId)
    → latest_of (d ∷ ds) op
      ≡ or_else (latest_of ds op) (if d.operation_id == op then some d else none)
latest_of-cons d ds op = ground (arith, last-cons d (filter (λ x. x.operation_id == op) ds))

-- It is the dispatch of its attempt.
pub latest_of-entry :
    (ds : List DispatchRecord) (op : OperationId) (d : DispatchRecord)
    → unique (keys_of (λ x. x.attempt_id) ds) ≡ true
    → latest_of ds op ≡ some d
    → dispatch_of ds d.attempt_id ≡ some d
latest_of-entry [] op d u h = cc
latest_of-entry (e ∷ ds) op d u h = elim (Option-cases (latest_of ds op)) [
  | inl k ↦ ground (arith, latest_of-cons e ds op, ==_iff e.attempt_id e.attempt_id)
  | inr (d', k) ↦
      let rest = latest_of-entry ds op d' (ground arith) k in
      let up = (entry-tail (λ x. x.attempt_id) e ds d'.attempt_id d' u rest).0 in
      ground (arith, latest_of-cons e ds op)
]

last-snoc : (attempts : List AttemptId) (a : AttemptId) → Journal.last (attempts ++ a ∷ []) ≡ some a
unfolding Journal.last
last-snoc [] a = refl
last-snoc (x ∷ []) a = refl
last-snoc (x ∷ y ∷ attempts) a = last-snoc (y ∷ attempts) a

-- The latest attempts after one more.
abbrev latest_in : Map OperationId (List AttemptId) → OperationId → Option AttemptId
latest_in m op = elim (Map.get m op) [ none ↦ none | some attempts ↦ Journal.last attempts ]

latest_in-push_attempt :
    (m : Map OperationId (List AttemptId)) (op : OperationId) (a : AttemptId) (op' : OperationId)
    → latest_in (push_attempt m op a) op' ≡ (if op == op' then some a else latest_in m op')
unfolding push_attempt Journal.last
latest_in-push_attempt m op a op' = elim (Option-cases (Map.get m op)) [
  | inl e ↦ ground (arith, Map.get-insert m op (a ∷ []) op', ==_iff op op')
  | inr (attempts, e) ↦
      ground
        (arith, Map.get-update m op (λ xs. xs ++ a ∷ []) op', ==_iff op op', last-snoc attempts a)
]

-- The dispatches can be written: their attempts are distinct, and new to the journal, which has
-- their intents.
pub record IsFresh (ds : List DispatchRecord) (j : DurableJournal) : Type 0 where
  pub distinct : unique (keys_of (λ d. d.attempt_id) ds) ≡ true
  pub unknown :
      (a : AttemptId) (d : DispatchRecord)
      → dispatch_of ds a ≡ some d
      → Map.get j.dispatches a ≡ none
  pub intended :
      (a : AttemptId) (d : DispatchRecord)
      → dispatch_of ds a ≡ some d
      → Map.contains_key j.intents d.operation_id ≡ true

pub record Dispatches (ds : List DispatchRecord) (j next : DurableJournal) : Type 0 where
  pub dispatches :
      (a : AttemptId)
      → Map.get next.dispatches a ≡ or_else (dispatch_of ds a) (Map.get j.dispatches a)
  pub latest :
      (op : OperationId)
      → latest_attempt next op
        ≡ elim (latest_of ds op) [ none ↦ latest_attempt j op | some d ↦ some d.attempt_id ]
  pub intents : next.intents ≡ j.intents
  pub outcomes : next.outcomes ≡ j.outcomes

abbrev after_dispatch : DispatchRecord → DurableJournal → DurableJournal
after_dispatch d j = record j {
  operation_attempts = push_attempt j.operation_attempts d.operation_id d.attempt_id;
  dispatches = Map.insert j.dispatches d.attempt_id d;
}

IsFresh-tail :
    (d : DispatchRecord) (ds : List DispatchRecord) (j : DurableJournal)
    → IsFresh (d ∷ ds) j
    → IsFresh ds (after_dispatch d j)
IsFresh-tail d ds j h = record {
  distinct = ground (arith, h.distinct);
  unknown = λ a d' k.
      let (up, ne) = entry-tail (λ x. x.attempt_id) d ds a d' h.distinct k in
      ground (
        arith,
        h.unknown a d' up,
        Map.get-insert j.dispatches d.attempt_id d a,
        ==_iff d.attempt_id a,
      );
  intended = λ a d' k. h.intended a d' (entry-tail (λ x. x.attempt_id) d ds a d' h.distinct k).0;
}

pub persist_dispatches-Dispatches :
    (ds : List DispatchRecord) (j : DurableJournal)
    → IsFresh ds j
    → (next : DurableJournal) × (persist_dispatches ds j ≡ ok next) × Dispatches ds j next
unfolding persist_dispatches persist_dispatch latest_attempt
persist_dispatches-Dispatches [] j h = (
  j,
  refl,
  record { dispatches = λ a. refl; latest = λ op. refl; intents = refl; outcomes = refl },
)
persist_dispatches-Dispatches (d ∷ ds) j h =
    let here : dispatch_of (d ∷ ds) d.attempt_id ≡ some d =
      ground (arith, ==_iff d.attempt_id d.attempt_id) in
    let (next, e, rest) =
      persist_dispatches-Dispatches ds (after_dispatch d j) (IsFresh-tail d ds j h) in
    let fresh = entry-fresh (λ x. x.attempt_id) d ds in
    (
      next,
      ground (arith, e, h.unknown d.attempt_id d here, h.intended d.attempt_id d here),
      record {
        dispatches = λ a. ground (
          arith,
          rest.dispatches a,
          Map.get-insert j.dispatches d.attempt_id d a,
          ==_iff d.attempt_id a,
          fresh a h.distinct,
        );
        latest = λ op. ground (
          arith,
          rest.latest op,
          latest_of-cons d ds op,
          latest_in-push_attempt j.operation_attempts d.operation_id d.attempt_id op,
        );
        intents = rest.intents;
        outcomes = rest.outcomes;
      },
    )
