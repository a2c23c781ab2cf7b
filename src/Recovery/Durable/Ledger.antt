-- ===== src/Recovery/Durable/Ledger.antt =====
-- crates/workflow-recovery/src/durable.rs: the commit ledger of a run, its replay and the snapshot.
-- `encode` stands for `postcard::to_allocvec`, which writes the key, the mutations and the revision
-- of a commit as bytes.
use Prim.Native.Nat.{bit_xor, ◌%◌}
use kernis.Base.{
  ℕ, ◌+◌, ◌-◌, ◌*◌, ◌^◌, not, ◌||◌, none, some, List, [], ◌∷◌, ◌++◌, if◌then◌else◌, ◌=ℕ◌, ok, err,
  fault, ◌>>=◌, option_eq, list_eq,
}
use kernis.Core.{id_ord, id_eq, is_blank, checked_succ}
use kernis.BTree.Map
use kernis.BTree.Map.{Map}
use kernis.Recovery.Durable.Facts.{
  RunId, StoreRevision, initial_revision, IdempotencyKey, DurableMutation, CommitLedgerEntry,
  data_corruption, invalid_ledger, invalid_binding, reused_key, exhausted_sequence,
  mismatched_revision, invalid_fact,
}
use kernis.Recovery.Durable.Same.{key_ord}
use kernis.Recovery.Durable.State.{DurableRunState, new, is_empty}
use kernis.Recovery.Durable.Apply.{Applied, apply_mutation}

-- The loop `for mutation in mutations { apply_mutation(state, mutation)? }`.
unfoldable pub apply_all : DurableRunState → List DurableMutation → Applied
apply_all s [] = ok s
apply_all s (m ∷ ms) = apply_mutation s m >>= λ next. apply_all next ms

-- `map_err(persisted_mutation_error)`
abbrev pub persisted_mutation_error : Applied → Applied
persisted_mutation_error (ok s) = ok s
persisted_mutation_error (err e) = err (data_corruption (invalid_fact e))
persisted_mutation_error (fault f) = fault f

-- The hash of FNV-1a, on 64 bits.
unfoldable pub fnv : ℕ → List ℕ → ℕ
fnv hash [] = hash
fnv hash (byte ∷ bytes) = fnv ((bit_xor hash byte * 0x100000001b3) % 2 ^ 64) bytes

module _ (encode : IdempotencyKey → List DurableMutation → StoreRevision → List ℕ) where
  unfoldable pub commit_binding : IdempotencyKey → List DurableMutation → StoreRevision → ℕ
  commit_binding key mutations revision = fnv 0xcbf29ce484222325 (encode key mutations revision)

  abbrev pub entry_of : IdempotencyKey → List DurableMutation → StoreRevision → CommitLedgerEntry
  entry_of key mutations revision = record {
    idempotency_key = key;
    mutations = mutations;
    revision = revision;
    binding = commit_binding key mutations revision;
  }

  unfoldable pub record_commit :
      DurableRunState → IdempotencyKey → List DurableMutation → StoreRevision → DurableRunState
  record_commit s key mutations revision = record s {
    revision = revision;
    commit_ledger = s.commit_ledger ++ entry_of key mutations revision ∷ [];
    idempotency = Map.insert s.idempotency key (mutations, revision);
  }

  -- One pass of the loop of `replay_commit_ledger`, without the step of `expected_revision`.
  unfoldable pub replay_entry : DurableRunState → ℕ → CommitLedgerEntry → Applied
  replay_entry s expected_revision entry =
      if is_blank entry.idempotency_key.value
        || is_empty entry.mutations
        || not (entry.revision =ℕ expected_revision)
      then err (data_corruption invalid_ledger)
      else if not
          (entry.binding =ℕ commit_binding entry.idempotency_key entry.mutations entry.revision)
      then err (data_corruption invalid_binding)
      else if Map.contains_key s.idempotency entry.idempotency_key
      then err (data_corruption reused_key)
      else (persisted_mutation_error (
            apply_all
              (record s {
                idempotency =
                    Map.insert s.idempotency entry.idempotency_key
                      (entry.mutations, entry.revision);
              })
              entry.mutations)
          >>= λ next. ok (record next {
            revision = entry.revision;
            commit_ledger = next.commit_ledger ++ entry ∷ [];
          }))

  -- The loop, and the test after it.
  unfoldable pub replay_entries : DurableRunState → ℕ → List CommitLedgerEntry → Applied
  replay_entries s expected_revision [] =
      if s.revision =ℕ (expected_revision - 1)
      then ok s
      else err (data_corruption mismatched_revision)
  replay_entries s expected_revision (entry ∷ entries) =
      replay_entry s expected_revision entry >>= λ next. elim (checked_succ expected_revision) [
        | none ↦ err (data_corruption exhausted_sequence)
        | some following ↦ replay_entries next following entries
      ]

  unfoldable pub replay_commit_ledger : RunId → List CommitLedgerEntry → Applied
  replay_commit_ledger run_id commit_ledger =
      replay_entries (new run_id) (initial_revision + 1) commit_ledger
