-- ===== src/Recovery/Durable/Books.antt =====
-- The revision, the ledger and the index of keys of a run, which mutations neither read nor write.
use kernis.Base.{◌≡◌, refl, ◌∙◌, subst, false, List, [], ◌∷◌, ok, >>=-eq-ok, arith}
use kernis.Core.{id_ord}
use kernis.BTree.Map.{Map}
use kernis.Recovery.Durable.Facts.{
  AttemptAdmission, CompletionRecord, DurableMutation, StoreRevision, IdempotencyKey,
  CommitLedgerEntry,
}
use kernis.Recovery.Durable.State.{DurableRunState, latest_dispatch}
use kernis.Recovery.Durable.Step
use kernis.Recovery.Durable.Step.{Step}
use kernis.Recovery.Durable.Apply.{apply_mutation}
use kernis.Recovery.Durable.Ledger.{apply_all}
use kernis.Recovery.Durable.Sound.{apply_mutation-Step}
use kernis.Recovery.Durable.Complete.{Step-apply_mutation}
use kernis.Recovery.Durable.Keeps.{
  Keeps, same_entries, Keeps-refl, Keeps-trans, Step-Keeps, Keeps-IsDispatched, Keeps-HasSucceeded,
}
use kernis.Recovery.Durable.Consistent.{
  IsConsistent, Step-IsConsistent, old_cancelled, old_dispatch, old_outcome, old_completion,
}
use kernis.Recovery.Durable.Snapshot.{blank_identity}

pub record Books : Type 0 where
  pub revision : StoreRevision
  pub commit_ledger : List CommitLedgerEntry
  pub idempotency : Map IdempotencyKey (List DurableMutation × StoreRevision)

abbrev pub books : DurableRunState → Books
books s = record {
  revision = s.revision;
  commit_ledger = s.commit_ledger;
  idempotency = s.idempotency;
}

abbrev pub with_books : DurableRunState → Books → DurableRunState
with_books s b = record s {
  revision = b.revision;
  commit_ledger = b.commit_ledger;
  idempotency = b.idempotency;
}

pub with_books-Keeps : (s : DurableRunState) (b : Books) → Keeps s (with_books s b)
with_books-Keeps s b = record {
  run_id = refl;
  admissions = same_entries _;
  intents = same_entries _;
  task_operations = same_entries _;
  cancellations = same_entries _;
  dispatches = same_entries _;
  outcomes = same_entries _;
  completions = same_entries _;
}

pub Step-books :
    {s : DurableRunState} (m : DurableMutation) (next : DurableRunState)
    → Step s m next
    → books next ≡ books s
Step-books _ _ (Step.identified x e) = refl
Step-books _ _ (Step.admitted x e f) = refl
Step-books _ _ (Step.intent_kept x e) = refl
Step-books _ _ (Step.intended x e f) = refl
Step-books _ _ (Step.cancellation_kept c e f) = refl
Step-books _ _ (Step.cancelled c e f op a) = refl
Step-books _ _ (Step.dispatched d p e f) = refl
Step-books _ _ (Step.outcome_kept o x p e f) = refl
Step-books _ _ (Step.settled o p e) = refl
Step-books _ _ (Step.completion_kept c p l e) = refl
Step-books _ _ (Step.completed c p l e) = refl

module _ (s : DurableRunState) (b : Books) where
  with_books-AdmitsLatest :
      (c : CompletionRecord) (x : AttemptAdmission)
      → Step.AdmitsLatest s c x
      → Step.AdmitsLatest (with_books s b) c x
  unfolding latest_dispatch
  with_books-AdmitsLatest c x h = h

  -- With the same admission, which the premises on the latest dispatch name.
  abbrev with_books_evidence :
      (c : CompletionRecord) → Step.HasEvidence s c → Step.HasEvidence (with_books s b) c
  with_books_evidence c p = record {
    admission = p.admission;
    admitted = p.admitted;
    task = p.task;
    effect = λ op k. Keeps-HasSucceeded (with_books-Keeps s b) c.attempt_id op (p.effect op k);
  }

  with_books-Step :
      (m : DurableMutation) (next : DurableRunState)
      → Step s m next
      → Step (with_books s b) m (with_books next b)
  with_books-Step _ _ (Step.identified x e) = Step.identified x e
  with_books-Step _ _ (Step.admitted x e f) = Step.admitted x e f
  with_books-Step _ _ (Step.intent_kept x e) = Step.intent_kept x e
  with_books-Step _ _ (Step.intended x e f) = Step.intended x e f
  with_books-Step _ _ (Step.cancellation_kept c e f) = Step.cancellation_kept c e f
  with_books-Step _ _ (Step.cancelled c e f op a) = Step.cancelled c e f op a
  with_books-Step _ _ (Step.dispatched d p e f) =
      Step.dispatched d
        (record {
          intent = p.intent;
          admission = p.admission;
          intended = p.intended;
          admitted = p.admitted;
          operation = p.operation;
          task = p.task;
        })
        e f
  with_books-Step _ _ (Step.outcome_kept o x p e f) =
      Step.outcome_kept o x (Keeps-IsDispatched (with_books-Keeps s b) o p) e f
  with_books-Step _ _ (Step.settled o p e) =
      Step.settled o (Keeps-IsDispatched (with_books-Keeps s b) o p) e
  with_books-Step _ _ (Step.completion_kept c p l e) =
      Step.completion_kept c (with_books_evidence c p) (with_books-AdmitsLatest c p.admission l) e
  with_books-Step _ _ (Step.completed c p l e) =
      Step.completed c (with_books_evidence c p) (with_books-AdmitsLatest c p.admission l) e

pub with_books-IsConsistent :
    (s : DurableRunState) (b : Books) → IsConsistent s → IsConsistent (with_books s b)
with_books-IsConsistent s b h =
    let next = with_books s b in
    let k = with_books-Keeps s b in
    record {
      admissions = h.admissions;
      dispatches = h.dispatches;
      outcomes = h.outcomes;
      completions = h.completions;
      tasks = record {
        intent_key = h.tasks.intent_key;
        distinct = h.tasks.distinct;
        tasks_agree = h.tasks.tasks_agree;
      };
      own_run = h.own_run;
      cancelled = old_cancelled s h next k;
      dispatch_admitted = old_dispatch s h next k;
      outcome_dispatched = old_outcome s h next k;
      completion_evidence = old_completion s h next k;
    }

-- An identity that was recorded is not blank.
abbrev pub IsNamed : DurableRunState → Type 0
IsNamed s = blank_identity s.workflow_replay_identity ≡ false

Step-IsNamed :
    {s : DurableRunState} (m : DurableMutation) (next : DurableRunState)
    → Step s m next
    → IsNamed s
    → IsNamed next
Step-IsNamed _ _ (Step.identified x e) h = e
Step-IsNamed _ _ (Step.admitted x e f) h = h
Step-IsNamed _ _ (Step.intent_kept x e) h = h
Step-IsNamed _ _ (Step.intended x e f) h = h
Step-IsNamed _ _ (Step.cancellation_kept c e f) h = h
Step-IsNamed _ _ (Step.cancelled c e f op a) h = h
Step-IsNamed _ _ (Step.dispatched d p e f) h = h
Step-IsNamed _ _ (Step.outcome_kept o x p e f) h = h
Step-IsNamed _ _ (Step.settled o p e) h = h
Step-IsNamed _ _ (Step.completion_kept c p l e) h = h
Step-IsNamed _ _ (Step.completed c p l e) h = h

-- What a list of mutations does to a run, where it is accepted.
pub record Applies (s : DurableRunState) (next : DurableRunState) : Type 0 where
  pub keeps : Keeps s next
  pub same_books : books next ≡ books s
  pub consistent : IsConsistent s → IsConsistent next
  pub named : IsNamed s → IsNamed next

pub apply_all-Applies :
    (s : DurableRunState) (ms : List DurableMutation) (next : DurableRunState)
    → apply_all s ms ≡ ok next
    → Applies s next
unfolding apply_all
apply_all-Applies s [] next h =
    subst (λ n. Applies s n) (ground arith)
      (record { keeps = Keeps-refl s; same_books = refl; consistent = λ c. c; named = λ n. n })
apply_all-Applies s (m ∷ ms) next h =
    let (mid, e, f) = >>=-eq-ok (apply_mutation s m) (λ t. apply_all t ms) h in
    let step = apply_mutation-Step s m mid e in
    let rest = apply_all-Applies mid ms next f in
    record {
      keeps = Keeps-trans (Step-Keeps m mid step) rest.keeps;
      same_books = rest.same_books ∙ Step-books m mid step;
      consistent = λ c. rest.consistent (Step-IsConsistent s m mid step c);
      named = λ n. rest.named (Step-IsNamed m mid step n);
    }

pub apply_all-with_books :
    (s : DurableRunState) (b : Books) (ms : List DurableMutation) (next : DurableRunState)
    → apply_all s ms ≡ ok next
    → apply_all (with_books s b) ms ≡ ok (with_books next b)
unfolding apply_all
apply_all-with_books s b [] next h = ground arith
apply_all-with_books s b (m ∷ ms) next h =
    let (mid, e, f) = >>=-eq-ok (apply_mutation s m) (λ t. apply_all t ms) h in
    let step = with_books-Step s b m mid (apply_mutation-Step s m mid e) in
    rw (Step-apply_mutation (with_books s b) m (with_books mid b) step)
      (apply_all-with_books mid b ms next f)
