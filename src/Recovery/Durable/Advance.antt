-- ===== src/Recovery/Durable/Advance.antt =====
-- Commits only add: to the facts of a run, to its keys and to its revision.
use kernis.Base.{ℕ, ◌≤◌, ◌≡◌, ap, List, Outcome, arith}
use kernis.Recovery.Durable.Facts.{
  DurableMutation, StoreRevision, IdempotencyKey, CommitRequest, CommitResult, StoreError,
}
use kernis.Recovery.Durable.Same.{key_ord}
use kernis.Recovery.Durable.State.{DurableRunState}
use kernis.Recovery.Durable.Ledger.{record_commit}
use kernis.Recovery.Durable.Store.{commit_to}
use kernis.Recovery.Durable.Keeps.{
  Keeps, Keeps-refl, Keeps-trans, Extends, same_entries, insert-Extends,
}
use kernis.Recovery.Durable.Books.{with_books-Keeps, apply_all-Applies}
use kernis.Recovery.Durable.Commit
use kernis.Recovery.Durable.Commit.{Commits, commit_to-Commits}

pub record Advances (s next : DurableRunState) : Type 0 where
  pub keeps : Keeps s next
  pub keys : Extends s.idempotency next.idempotency
  pub forward : s.revision ≤ next.revision

pub Advances-refl : (s : DurableRunState) → Advances s s
Advances-refl s = record { keeps = Keeps-refl s; keys = same_entries _; forward = ground arith }

pub Advances-trans :
    {s mid next : DurableRunState} → Advances s mid → Advances mid next → Advances s next
Advances-trans p q = record {
  keeps = Keeps-trans p.keeps q.keeps;
  keys = λ k v h. q.keys k v (p.keys k v h);
  forward = ground (arith, p.forward, q.forward);
}

module _ (encode : IdempotencyKey → List DurableMutation → StoreRevision → List ℕ)
    (request : CommitRequest) (s : DurableRunState) where
  Commits-Advances :
      (result : Outcome StoreError CommitResult) (next : DurableRunState)
      → Commits encode request s result next
      → Advances s next
  unfolding record_commit
  Commits-Advances _ _ (Commit.replayed revision k) = Advances-refl s
  Commits-Advances _ _ (Commit.reused ms revision k l) = Advances-refl s
  Commits-Advances _ _ (Commit.stale k l) = Advances-refl s
  Commits-Advances _ _ (Commit.exhausted k l m) = Advances-refl s
  Commits-Advances _ _ (Commit.refused e k l m a) = Advances-refl s
  Commits-Advances _ _ (Commit.committed candidate k l m a) =
      let done = apply_all-Applies s request.mutations candidate a in
      let same_index : candidate.idempotency ≡ s.idempotency =
        ap (λ x. x.idempotency) done.same_books in
      record {
        keeps = Keeps-trans done.keeps (with_books-Keeps candidate _);
        keys = rw same_index (insert-Extends s.idempotency request.idempotency_key _ k);
        forward = ground arith;
      }

  pub commit_to-Advances : Advances s (commit_to encode request s).1
  commit_to-Advances = Commits-Advances _ _ (commit_to-Commits encode request s)
