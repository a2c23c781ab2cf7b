-- ===== src/Recovery/Durable/Accepts.antt =====
-- What a commit that is accepted does to its run, and when one is.
use kernis.Base.{
  ℕ, ◌+◌, ◌<◌, ◌≡◌, refl, ap, ◌∙◌, subst, true, false, none, some, List, [], ◌∷◌, ◌++◌, ◌==◌,
  Outcome, ok, err, fault, Fault, arith, if◌then◌else◌, list_eq,
}
use kernis.Core.{id_ord, u64_max}
use kernis.BTree.Map
use kernis.BTree.Map.{Map}
use kernis.Recovery.Durable.Facts.{
  DurableMutation, StoreRevision, IdempotencyKey, CommitRequest, CommitResult, StoreError,
}
use kernis.Recovery.Durable.Same.{key_ord, mutation_eq}
use kernis.Recovery.Durable.State.{DurableRunState}
use kernis.Recovery.Durable.Ledger.{apply_all, record_commit, commit_binding, entry_of}
use kernis.Recovery.Durable.Commit
use kernis.Recovery.Durable.Commit.{Commits, commit_to-Commits}
use kernis.Recovery.Durable.Books.{books, with_books, apply_all-Applies}
use kernis.Recovery.Durable.Steps.{Steps, apply_all-Steps, Steps-apply_all}

-- A commit whose key was already committed with the same mutations.
pub record IsReplay (request : CommitRequest) (done : CommitResult) (s next : DurableRunState)
    : Type 0 where
  pub known :
      (revision : StoreRevision) × (Map.get s.idempotency request.idempotency_key
        ≡ some (request.mutations, revision))
  pub revision : done.revision ≡ s.revision
  pub unchanged : next ≡ s

-- A commit of new mutations that can be made: the run is at the expected revision, which is not the
-- last, and the mutations are steps.
pub record IsAppendable (request : CommitRequest) (s : DurableRunState) : Type 0 where
  pub fresh : Map.get s.idempotency request.idempotency_key ≡ none
  pub expected : request.expected_revision ≡ s.revision
  pub room : s.revision < u64_max
  pub reached : DurableRunState
  pub steps : Steps s request.mutations reached

-- The key was already committed with the same mutations.
abbrev pub IsKnown : CommitRequest → DurableRunState → Type 0
IsKnown request s =
    (revision : StoreRevision) × (Map.get s.idempotency request.idempotency_key
      ≡ some (request.mutations, revision))

module _ (encode : IdempotencyKey → List DurableMutation → StoreRevision → List ℕ) where
  -- A commit of new mutations to a run that was at the expected revision: each mutation is a step
  -- from the facts before to those after, and together they are one entry of the ledger.
  pub record IsAppended (request : CommitRequest) (done : CommitResult) (s next : DurableRunState)
      : Type 0 where
    pub fresh : Map.get s.idempotency request.idempotency_key ≡ none
    pub expected : request.expected_revision ≡ s.revision
    pub steps : Steps s request.mutations (with_books next (books s))
    pub revision : done.revision ≡ s.revision + 1
    pub reached : next.revision ≡ done.revision
    pub ledger :
        next.commit_ledger
        ≡ s.commit_ledger
          ++ record {
            idempotency_key = request.idempotency_key;
            mutations = request.mutations;
            revision = done.revision;
            binding = commit_binding encode request.idempotency_key request.mutations done.revision;
          }
            ∷ []
    pub keys :
        (k : IdempotencyKey)
        → Map.get next.idempotency k ≡ (
            if request.idempotency_key == k
            then some (request.mutations, done.revision)
            else Map.get s.idempotency k)

  abbrev pub Accepts : CommitRequest → DurableRunState → CommitResult → DurableRunState → Type 0
  Accepts request s done next =
      if done.replayed then IsReplay request done s next else IsAppended request done s next

  module _ (request : CommitRequest) (s : DurableRunState) where
    record_commit-IsAppended :
        (candidate : DurableRunState)
        → Map.get s.idempotency request.idempotency_key ≡ none
        → request.expected_revision ≡ s.revision
        → apply_all s request.mutations ≡ ok candidate
        → IsAppended request
            (record { revision = s.revision + 1; replayed = false })
            s
            (record_commit encode candidate request.idempotency_key request.mutations
              (s.revision + 1))
    unfolding record_commit
    record_commit-IsAppended candidate fresh expected a =
        let same = (apply_all-Applies s request.mutations candidate a).same_books in
        let same_index : candidate.idempotency ≡ s.idempotency = ap (λ x. x.idempotency) same in
        record {
          fresh = fresh;
          expected = expected;
          steps =
              subst (λ b. Steps s request.mutations (with_books candidate b)) same
                (apply_all-Steps s request.mutations candidate a);
          revision = refl;
          reached = refl;
          ledger =
              ap
                (λ x.
                  x.commit_ledger
                  ++ entry_of encode request.idempotency_key request.mutations (s.revision + 1)
                    ∷ [])
                same;
          keys = λ k.
              Map.get-insert candidate.idempotency request.idempotency_key
                (request.mutations, s.revision + 1) k
              ∙ rw same_index refl;
        }

    pub Commits-Accepts :
        (result : Outcome StoreError CommitResult) (next : DurableRunState)
        → Commits encode request s result next
        → (done : CommitResult) → result ≡ ok done
        → Accepts request s done next
    Commits-Accepts _ _ (Commit.replayed revision k) done h =
        let eq : record { revision = s.revision; replayed = true } ≡ done = ground arith in
        subst (λ d. Accepts request s d s) eq
          (record { known = (revision, k); revision = refl; unchanged = refl })
    Commits-Accepts _ _ (Commit.reused ms revision k l) done h = cc
    Commits-Accepts _ _ (Commit.stale k l) done h = cc
    Commits-Accepts _ _ (Commit.exhausted k l m) done h = cc
    Commits-Accepts _ _ (Commit.refused e k l m a) done h = cc
    Commits-Accepts _ next (Commit.committed candidate k l m a) done h =
        let eq : record { revision = s.revision + 1; replayed = false } ≡ done = ground arith in
        subst (λ d. Accepts request s d next) eq (record_commit-IsAppended candidate k l a)

    pub Commits-refused :
        (result : Outcome StoreError CommitResult) (next : DurableRunState)
        → Commits encode request s result next
        → (e : StoreError) → result ≡ err e
        → next ≡ s
    Commits-refused _ _ (Commit.replayed revision k) e h = refl
    Commits-refused _ _ (Commit.reused ms revision k l) e h = refl
    Commits-refused _ _ (Commit.stale k l) e h = refl
    Commits-refused _ _ (Commit.exhausted k l m) e h = refl
    Commits-refused _ _ (Commit.refused x k l m a) e h = refl
    Commits-refused _ _ (Commit.committed candidate k l m a) e h = cc

    pub Commits-justified :
        (result : Outcome StoreError CommitResult) (next : DurableRunState)
        → Commits encode request s result next
        → (e : StoreError) → result ≡ err e
        → (¬ IsAppendable request s) × (¬ IsKnown request s)
    Commits-justified _ _ (Commit.replayed revision k) e h = cc
    Commits-justified _ _ (Commit.reused ms revision k l) e h =
        (λ a. cc (k, a.fresh), λ known. l (ground (arith, k, known.1)))
    Commits-justified _ _ (Commit.stale k l) e h = (λ a. l a.expected, λ known. cc (k, known.1))
    Commits-justified _ _ (Commit.exhausted k l m) e h = (λ a. m a.room, λ known. cc (k, known.1))
    Commits-justified _ _ (Commit.refused x k l m a) e h = (
      λ b. cc (a, Steps-apply_all s request.mutations b.reached b.steps),
      λ known. cc (k, known.1),
    )
    Commits-justified _ _ (Commit.committed candidate k l m a) e h = cc

    pub Commits-ne-fault :
        (result : Outcome StoreError CommitResult) (next : DurableRunState)
        → Commits encode request s result next
        → (f : Fault) → result ≡ fault f
        → ⊥
    Commits-ne-fault _ _ (Commit.replayed revision k) f h = cc
    Commits-ne-fault _ _ (Commit.reused ms revision k l) f h = cc
    Commits-ne-fault _ _ (Commit.stale k l) f h = cc
    Commits-ne-fault _ _ (Commit.exhausted k l m) f h = cc
    Commits-ne-fault _ _ (Commit.refused x k l m a) f h = cc
    Commits-ne-fault _ _ (Commit.committed candidate k l m a) f h = cc
