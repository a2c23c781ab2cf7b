-- ===== src/Recovery/Durable/Commit.antt =====
-- crates/workflow-recovery/src/durable.rs: what a commit returns and leaves, case by case.
use kernis.Base.{
  ℕ, ◌+◌, ◌<◌, ◌≡◌, sym, subst, true, false, none, some, List, [], ◌∷◌, Outcome, ok, err, fault,
  arith, Bool-cases, Option-cases, inl, inr, ◌=ℕ◌, list_eq, Fault, Outcome-cases, ltb,
}
use kernis.Core.{id_ord, u64_max}
use kernis.BTree.Map
use kernis.BTree.Map.{Map}
use kernis.Recovery.Durable.Facts.{
  record_workflow_replay_identity, admit_attempt, record_intent, record_cancellation,
  record_dispatch, record_outcome, record_completion, DurableMutation, StoreRevision,
  IdempotencyKey, CommitRequest, CommitResult, StoreError, idempotency_conflict, revision_conflict,
  revision_exhausted, checked_next,
}
use kernis.Recovery.Durable.Same.{key_ord, same, same_iff, mutation_eq}
use kernis.Recovery.Durable.State.{DurableRunState}
use kernis.Recovery.Durable.Apply.{
  apply_identity, apply_admission, apply_intent, apply_cancellation, admit_dispatch, apply_dispatch,
  settle_outcome, apply_outcome, settle_completion, apply_completion, apply_mutation,
}
use kernis.Recovery.Durable.Ledger.{apply_all, record_commit}
use kernis.Recovery.Durable.Store.{commit_to}

-- `apply_mutation` returns a state or an error.
apply_mutation-ne-fault :
    (s : DurableRunState) (m : DurableMutation) (f : Fault) → apply_mutation s m ≡ fault f → ⊥
unfolding apply_mutation apply_identity apply_admission apply_intent apply_cancellation
    admit_dispatch apply_dispatch settle_outcome apply_outcome settle_completion apply_completion
apply_mutation-ne-fault s (record_workflow_replay_identity x) f h = ground arith
apply_mutation-ne-fault s (admit_attempt x) f h = ground arith
apply_mutation-ne-fault s (record_intent x) f h = ground arith
apply_mutation-ne-fault s (record_cancellation x) f h = ground arith
apply_mutation-ne-fault s (record_dispatch x) f h = ground arith
apply_mutation-ne-fault s (record_outcome x) f h = ground arith
apply_mutation-ne-fault s (record_completion x) f h = ground arith

apply_all-ne-fault :
    (s : DurableRunState) (ms : List DurableMutation) (f : Fault) → apply_all s ms ≡ fault f → ⊥
unfolding apply_all
apply_all-ne-fault s [] f h = cc
apply_all-ne-fault s (m ∷ ms) f h = elim (Outcome-cases (apply_mutation s m)) [
  | inl (t, e) ↦ apply_all-ne-fault t ms f (ground arith)
  | inr (inl (x, e)) ↦ ground arith
  | inr (inr (g, e)) ↦ apply_mutation-ne-fault s m g e
]

module _ (encode : IdempotencyKey → List DurableMutation → StoreRevision → List ℕ)
    (request : CommitRequest) (s : DurableRunState) where
  pub data Commits : Outcome StoreError CommitResult → DurableRunState → Type 0 where
    -- The key was used for the same mutations.
    replayed :
        (revision : StoreRevision)
        → Map.get s.idempotency request.idempotency_key ≡ some (request.mutations, revision)
        → Commits (ok (record { revision = s.revision; replayed = true })) s
    reused :
        (mutations : List DurableMutation) (revision : StoreRevision)
        → Map.get s.idempotency request.idempotency_key ≡ some (mutations, revision)
        → ((mutations ≡ request.mutations) → ⊥)
        → Commits (err (idempotency_conflict request.idempotency_key)) s
    stale :
        Map.get s.idempotency request.idempotency_key ≡ none
        → ((request.expected_revision ≡ s.revision) → ⊥)
        → Commits (err (revision_conflict request.expected_revision s.revision)) s
    exhausted :
        Map.get s.idempotency request.idempotency_key ≡ none
        → request.expected_revision ≡ s.revision
        → ((s.revision < u64_max) → ⊥)
        → Commits (err (revision_exhausted s.revision)) s
    refused :
        (e : StoreError)
        → Map.get s.idempotency request.idempotency_key ≡ none
        → request.expected_revision ≡ s.revision
        → s.revision < u64_max
        → apply_all s request.mutations ≡ err e
        → Commits (err e) s
    -- Every mutation was accepted.
    committed :
        (candidate : DurableRunState)
        → Map.get s.idempotency request.idempotency_key ≡ none
        → request.expected_revision ≡ s.revision
        → s.revision < u64_max
        → apply_all s request.mutations ≡ ok candidate
        → Commits (ok (record { revision = s.revision + 1; replayed = false })) (
            record_commit encode candidate request.idempotency_key request.mutations
              (s.revision + 1))

  pub commit_to-Commits : Commits (commit_to encode request s).0 (commit_to encode request s).1
  unfolding commit_to checked_next record_commit
  commit_to-Commits = elim (Option-cases (Map.get s.idempotency request.idempotency_key)) [
    | inr (existing, e) ↦ elim (Bool-cases (same existing.0 request.mutations)) [
      | inl k ↦
          let eq : commit_to encode request s
              ≡ (ok (record { revision = s.revision; replayed = true }), s) =
            ground arith in
          subst (λ r. Commits r.0 r.1) (sym eq)
            (replayed existing.1 (ground (arith, same_iff existing.0 request.mutations)))
      | inr k ↦
          let eq : commit_to encode request s
              ≡ (err (idempotency_conflict request.idempotency_key), s) =
            ground arith in
          subst (λ r. Commits r.0 r.1) (sym eq)
            (reused existing.0 existing.1 e
              (λ same. ground (arith, same_iff existing.0 request.mutations)))
    ]
    | inl e ↦ elim (Bool-cases (request.expected_revision =ℕ s.revision)) [
      | inr k ↦
          let eq : commit_to encode request s
              ≡ (err (revision_conflict request.expected_revision s.revision), s) =
            ground arith in
          subst (λ r. Commits r.0 r.1) (sym eq) (stale e (λ same. ground arith))
      | inl k ↦ elim (Bool-cases (ltb s.revision u64_max)) [
        | inr l ↦
            let eq : commit_to encode request s ≡ (err (revision_exhausted s.revision), s) =
              ground arith in
            subst (λ r. Commits r.0 r.1) (sym eq)
              (exhausted e (ground arith) (λ less. ground arith))
        | inl l ↦ elim (Outcome-cases (apply_all s request.mutations)) [
          | inl (candidate, a) ↦
              let eq : commit_to encode request s ≡ (
                ok (record { revision = s.revision + 1; replayed = false }),
                record_commit encode candidate request.idempotency_key request.mutations
                    (s.revision + 1),
              ) =
                ground arith in
              subst (λ r. Commits r.0 r.1) (sym eq)
                (committed candidate e (ground arith) (ground arith) a)
          | inr (inl (x, a)) ↦
              let eq : commit_to encode request s ≡ (err x, s) = ground arith in
              subst (λ r. Commits r.0 r.1) (sym eq) (refused x e (ground arith) (ground arith) a)
          | inr (inr (f, a)) ↦ elim (apply_all-ne-fault s request.mutations f a) [ ]
        ]
      ]
    ]
  ]
