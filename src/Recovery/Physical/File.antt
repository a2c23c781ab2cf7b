-- ===== src/Recovery/Physical/File.antt =====
-- crates/workflow-recovery/src/physical.rs: opening the file, and the transactions of
-- `FileDurableStore` on the table of rows. What redb answers, mapped to a `StoreError` where it
-- fails, is an argument.
use kernis.Base.{
  ℕ, zero, suc, Bool, true, false, not, Option, none, some, List, if◌then◌else◌, ◌=ℕ◌, Outcome, ok,
  err, fault, ◌>>=◌, ◌>>◌, list_eq, ◌==◌,
}
use kernis.Core.{id_ord}
use kernis.BTree.Map
use kernis.BTree.Map.{Map}
use kernis.Recovery.Durable.Facts.{
  RunId, StoreRevision, initial_revision, checked_next, IdempotencyKey, DurableMutation,
  PersistedRunSnapshot, CommitRequest, CommitResult, StoreError, run_not_found, run_already_exists,
  revision_conflict, idempotency_conflict, empty_commit, revision_exhausted, backend_unavailable,
  data_corruption, backend_panicked, wrong_row,
}
use kernis.Recovery.Durable.Same.{key_ord, same, mutation_eq}
use kernis.Recovery.Durable.State.{DurableRunState, new, is_empty}
use kernis.Recovery.Durable.Apply.{Applied}
use kernis.Recovery.Durable.Ledger.{apply_all, record_commit}
use kernis.Recovery.Physical.Format.{encode_state, decode_state}

-- What `Database::open` answers: a handle, that another handle is open, another error, or a panic.
pub data OpenAnswer : Type 0 where
  opened already_open panicked : OpenAnswer
  failed : StoreError → OpenAnswer

-- `DATABASE_OPEN_RETRIES`
abbrev pub database_open_retries : ℕ
database_open_retries = 40

-- `open_existing_database` from an attempt on, with the attempts that are left after it. A panic is
-- made an error by `catch_backend_panic`.
unfoldable pub open_from : (ℕ → OpenAnswer) → ℕ → ℕ → Outcome StoreError (Unit {0})
open_from answer attempt zero = elim (answer attempt) [
  | opened ↦ ok tt
  | already_open ↦ err backend_unavailable
  | panicked ↦ err (data_corruption backend_panicked)
  | failed e ↦ err e
]
open_from answer attempt (suc left) =
    let next = open_from answer (suc attempt) left in
    elim (answer attempt) [
      | opened ↦ ok tt
      | already_open ↦ next
      | panicked ↦ err (data_corruption backend_panicked)
      | failed e ↦ err e
    ]

unfoldable pub open_existing_database : (ℕ → OpenAnswer) → Outcome StoreError (Unit {0})
open_existing_database answer = open_from answer 0 database_open_retries

-- What redb answers to the steps of one operation: nothing where the step succeeds. A commit that
-- fails may have taken effect.
pub record Answers : Type 0 where
  pub open_file : ℕ → OpenAnswer
  pub begin : Option StoreError
  pub open_table : Option StoreError
  pub get : Option StoreError
  pub insert : Option StoreError
  pub commit : Option (StoreError × Bool)

abbrev pub ask : Option StoreError → Outcome StoreError (Unit {0})
ask none = ok tt
ask (some e) = err e

-- The rows of the table, by the text of a run's name.
abbrev pub Table : Type 0
Table = Map RunId (List ℕ)

-- `write.commit()`: the rows of the transaction become the table.
abbrev pub commit_rows {ℓ} :
    {A : Type ℓ} → Option (StoreError × Bool) → A → Table → Table → Outcome StoreError A × Table
commit_rows none result rows table = (ok result, rows)
commit_rows (some (e, kept)) result rows table = (err e, if kept then rows else table)

abbrev pub get_row : Answers → Table → RunId → Outcome StoreError (List ℕ)
get_row answers table run_id = ask answers.open_table >> ask answers.get >>= λ _.
    elim (Map.get table run_id) [ none ↦ err (run_not_found run_id) | some encoded ↦ ok encoded ]

module _ (encode : IdempotencyKey → List DurableMutation → StoreRevision → List ℕ)
    (to_bytes : PersistedRunSnapshot → Outcome (List ℕ) (List ℕ))
    (from_bytes : List ℕ → Outcome (List ℕ) (PersistedRunSnapshot × List ℕ)) where
  -- The steps of `create_run` before its commit: the row to insert.
  unfoldable pub prepare_run : Answers → RunId → Table → Outcome StoreError (List ℕ)
  prepare_run answers run_id table =
      open_existing_database answers.open_file
      >>= (λ _. encode_state encode to_bytes from_bytes (new run_id))
      >>= λ encoded. ask answers.begin >> ask answers.open_table >> ask answers.get >>= λ _.
          if Map.contains_key table run_id
          then err (run_already_exists run_id)
          else ask answers.insert >>= λ _. ok encoded

  unfoldable pub create_run : Answers → RunId → Table → Outcome StoreError StoreRevision × Table
  create_run answers run_id table = elim (prepare_run answers run_id table) [
    | err e ↦ (err e, table)
    | fault f ↦ (fault f, table)
    | ok encoded ↦
        commit_rows answers.commit initial_revision (Map.insert table run_id encoded) table
  ]

  -- The state of a row, which has to be that of its key.
  unfoldable pub decode_row : RunId → List ℕ → Applied
  decode_row run_id encoded = decode_state encode to_bytes from_bytes encoded >>= λ s.
      if not (s.run_id == run_id) then err (data_corruption (wrong_row run_id s.run_id)) else ok s

  unfoldable pub load_run : Answers → Table → RunId → Applied
  load_run answers table run_id =
      open_existing_database answers.open_file
      >> ask answers.begin
      >> get_row answers table run_id
      >>= λ encoded. decode_row run_id encoded

  -- The part of `commit` on the state of its row: the result, and the row to insert, if any.
  unfoldable pub commit_row :
      Answers
      → CommitRequest
      → DurableRunState
      → Outcome StoreError (CommitResult × Option (List ℕ))
  commit_row answers request s = elim (Map.get s.idempotency request.idempotency_key) [
    | some existing ↦
        if same existing.0 request.mutations
        then ok (record { revision = s.revision; replayed = true }, none)
        else err (idempotency_conflict request.idempotency_key)
    | none ↦
        if not (request.expected_revision =ℕ s.revision)
        then err (revision_conflict request.expected_revision s.revision)
        else elim (checked_next s.revision) [
          | none ↦ err (revision_exhausted s.revision)
          | some revision ↦
              apply_all s request.mutations
              >>= (λ candidate. encode_state encode to_bytes from_bytes (
                  record_commit encode (record candidate { revision = revision })
                    request.idempotency_key request.mutations revision))
              >>= λ encoded. ask answers.insert >>= λ _.
                  ok (record { revision = revision; replayed = false }, some encoded)
        ]
  ]

  -- The steps of `commit` before its transaction is committed.
  unfoldable pub prepare_commit :
      Answers → CommitRequest → Table → Outcome StoreError (CommitResult × Option (List ℕ))
  prepare_commit answers request table =
      open_existing_database answers.open_file
      >> ask answers.begin
      >> get_row answers table request.run_id
      >>= (λ encoded. decode_row request.run_id encoded)
      >>= λ s. commit_row answers request s

  unfoldable pub commit : Answers → CommitRequest → Table → Outcome StoreError CommitResult × Table
  commit answers request table =
      if is_empty request.mutations
      then (err empty_commit, table)
      else elim (prepare_commit answers request table) [
        | err e ↦ (err e, table)
        | fault f ↦ (fault f, table)
        | ok prepared ↦ elim prepared.1 [
          | none ↦ (ok prepared.0, table)
          | some encoded ↦
              commit_rows answers.commit prepared.0 (Map.insert table request.run_id encoded) table
        ]
      ]
