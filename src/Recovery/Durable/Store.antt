-- ===== src/Recovery/Durable/Store.antt =====
-- crates/workflow-recovery/src/durable.rs: `DurableStore` of `InMemoryDurableStore`.
use kernis.Base.{
  ℕ, true, false, not, none, some, List, [], if◌then◌else◌, ◌=ℕ◌, Outcome, ok, err, fault, list_eq,
}
use kernis.Core.{id_ord}
use kernis.BTree.Map
use kernis.BTree.Map.{Map}
use kernis.Recovery.Durable.Facts.{
  RunId, StoreRevision, initial_revision, checked_next, IdempotencyKey, DurableMutation,
  CommitRequest, CommitResult, StoreError, run_not_found, run_already_exists, revision_conflict,
  idempotency_conflict, empty_commit, revision_exhausted,
}
use kernis.Recovery.Durable.Same.{key_ord, same, mutation_eq}
use kernis.Recovery.Durable.State.{DurableRunState, new, is_empty}
use kernis.Recovery.Durable.Ledger.{apply_all, record_commit}

pub record InMemoryDurableStore : Type 0 where
  pub runs : Map RunId DurableRunState

-- `InMemoryDurableStore::new`
abbrev pub new_store : InMemoryDurableStore
new_store = record { runs = [] }

unfoldable pub create_run :
    RunId → InMemoryDurableStore → Outcome StoreError StoreRevision × InMemoryDurableStore
create_run run_id store =
    if Map.contains_key store.runs run_id
    then (err (run_already_exists run_id), store)
    else (ok initial_revision, record { runs = Map.insert store.runs run_id (new run_id) })

unfoldable pub load_run : InMemoryDurableStore → RunId → Outcome StoreError DurableRunState
load_run store run_id = elim (Map.get store.runs run_id) [
  | none ↦ err (run_not_found run_id)
  | some s ↦ ok s
]

module _ (encode : IdempotencyKey → List DurableMutation → StoreRevision → List ℕ) where
  -- `commit` on the state of its run: the result, and the state that replaces it.
  unfoldable pub commit_to :
      CommitRequest → DurableRunState → Outcome StoreError CommitResult × DurableRunState
  commit_to request s = elim (Map.get s.idempotency request.idempotency_key) [
    | some existing ↦
        if same existing.0 request.mutations
        then (ok (record { revision = s.revision; replayed = true }), s)
        else (err (idempotency_conflict request.idempotency_key), s)
    | none ↦
        if not (request.expected_revision =ℕ s.revision)
        then (err (revision_conflict request.expected_revision s.revision), s)
        else elim (checked_next s.revision) [
          | none ↦ (err (revision_exhausted s.revision), s)
          | some revision ↦ elim (apply_all s request.mutations) [
            | err e ↦ (err e, s)
            | fault f ↦ (fault f, s)
            | ok candidate ↦ (
              ok (record { revision = revision; replayed = false }),
              record_commit encode (record candidate { revision = revision })
                  request.idempotency_key request.mutations revision,
            )
          ]
        ]
  ]

  unfoldable pub commit :
      CommitRequest → InMemoryDurableStore → Outcome StoreError CommitResult × InMemoryDurableStore
  commit request store =
      if is_empty request.mutations
      then (err empty_commit, store)
      else elim (Map.get store.runs request.run_id) [
        | none ↦ (err (run_not_found request.run_id), store)
        | some s ↦
            let done = commit_to request s in
            (done.0, record { runs = Map.update store.runs request.run_id (λ _. done.1) })
      ]
