-- ===== src/Recovery/Physical/Refines.antt =====
-- The file store does what the store in memory does.
use kernis.Base.{
  ℕ, ◌+◌, ◌<◌, ◌≡◌, refl, sym, ◌∙◌, subst, false, Option, none, some, List, Outcome, ok, err,
  list_eq, ◌==◌, ==_iff, ==_refl, arith, Bool-cases, Option-cases, ◌⊎◌, inl, inr,
}
use kernis.Core.{id_ord, is_blank, u64_max}
use kernis.BTree.Map
use kernis.BTree.Map.{Map}
use kernis.Recovery.Durable.Facts.{
  RunId, StoreRevision, checked_next, IdempotencyKey, DurableMutation, PersistedRunSnapshot,
  CommitRequest, CommitResult, StoreError, run_not_found,
}
use kernis.Recovery.Durable.Same.{key_ord, same, same_iff, mutation_eq}
use kernis.Recovery.Durable.State.{DurableRunState, is_empty}
use kernis.Recovery.Durable.Ledger.{record_commit}
use kernis.Recovery.Durable.Snapshot.{persisted_snapshot}
use kernis.Recovery.Durable.Store
use kernis.Recovery.Durable.Store.{InMemoryDurableStore, commit_to}
use kernis.Recovery.Durable.Commit
use kernis.Recovery.Durable.Commit.{Commits, commit_to-Commits}
use kernis.Recovery.Durable.Recorded.{IsRecorded, record_commit-IsRecorded}
use kernis.Recovery.Durable.Restore.{persisted_snapshot-IsRecorded}
use kernis.Recovery.Durable.Calls.{IsStore}
use kernis.Recovery.Physical.Format.{encode_state, decode_state}
use kernis.Recovery.Physical.RoundTrip.{IsCoded, encode_state-decode_state, encode_state_ok}
use kernis.Recovery.Physical.File
use kernis.Recovery.Physical.File.{
  Answers, Table, open_existing_database, ask, get_row, decode_row, commit_row, prepare_commit,
  commit_rows,
}

-- The file is opened within the attempts, and no step of the transaction fails.
pub record IsQuiet (answers : Answers) : Type 0 where
  pub opens : open_existing_database answers.open_file ≡ ok tt
  pub begins : answers.begin ≡ none
  pub opens_table : answers.open_table ≡ none
  pub gets : answers.get ≡ none
  pub inserts : answers.insert ≡ none
  pub commits : answers.commit ≡ none

module _ (encode : IdempotencyKey → List DurableMutation → StoreRevision → List ℕ)
    (to_bytes : PersistedRunSnapshot → Outcome (List ℕ) (List ℕ))
    (from_bytes : List ℕ → Outcome (List ℕ) (PersistedRunSnapshot × List ℕ)) where
  -- The row decodes to the state.
  pub record HasRow (table : Table) (r : RunId) (s : DurableRunState) : Type 0 where
    pub row : List ℕ
    pub stored : Map.get table r ≡ some row
    pub decoded : decode_state encode to_bytes from_bytes row ≡ ok s

  -- The table has a row for each run of the store, and no other.
  pub record Holds (table : Table) (store : InMemoryDurableStore) : Type 0 where
    pub absent : (r : RunId) → Map.get store.runs r ≡ none → Map.get table r ≡ none
    pub present :
        (r : RunId) (s : DurableRunState) → Map.get store.runs r ≡ some s → HasRow table r s

  -- What `commit_row` answers where the commit in memory has a result and a next state.
  abbrev Answered :
      DurableRunState
      → Outcome StoreError CommitResult
      → DurableRunState
      → Outcome StoreError (CommitResult × Option (List ℕ))
      → Type 0
  Answered s result next row =
      ((e : StoreError) × (result ≡ err e) × (row ≡ err e) × (next ≡ s))
      ⊎ (((done : CommitResult) × (result ≡ ok done) × (row ≡ ok (done, none)) × (next ≡ s))
          ⊎ ((done : CommitResult) × (encoded : List ℕ) × (result ≡ ok done)
              × (row ≡ ok (done, some encoded))
              × (encode_state encode to_bytes from_bytes next ≡ ok encoded)))

  module _ (answers : Answers) (quiet : IsQuiet answers) where
    Commits-Answered :
        (request : CommitRequest) (s : DurableRunState) (result : Outcome StoreError CommitResult)
        (next : DurableRunState)
        → is_blank request.idempotency_key.value ≡ false
        → is_empty request.mutations ≡ false
        → s.revision + 1 < u64_max
        → IsRecorded encode s
        → IsCoded encode to_bytes from_bytes next
        → Commits encode request s result next
        → Answered s result next (commit_row encode to_bytes from_bytes answers request s)
    unfolding commit_row checked_next record_commit
    Commits-Answered request s _ _ b n room h codec (Commit.replayed revision k) =
        inr (inl (_, refl, ground (arith, same_iff request.mutations request.mutations), refl))
    Commits-Answered request s _ _ b n room h codec (Commit.reused ms revision k l) =
        inl (_, refl, ground (arith, same_iff ms request.mutations), refl)
    Commits-Answered request s _ _ b n room h codec (Commit.stale k l) =
        inl (_, refl, ground arith, refl)
    Commits-Answered request s _ _ b n room h codec (Commit.exhausted k l m) =
        inl (_, refl, ground arith, refl)
    Commits-Answered request s _ _ b n room h codec (Commit.refused e k l m a) =
        inl (_, refl, ground arith, refl)
    Commits-Answered request s _ _ b n room h codec (Commit.committed candidate k l m a) =
        let next =
          record_commit encode candidate request.idempotency_key request.mutations
            (s.revision + 1) in
        let recorded =
          record_commit-IsRecorded encode s candidate request.idempotency_key request.mutations h b
            n k m a in
        let saved : persisted_snapshot encode next
            ≡ ok (record { run_id = next.run_id; commit_ledger = next.commit_ledger }) =
          ground (arith, persisted_snapshot-IsRecorded encode next recorded) in
        let (encoded, row) = encode_state_ok encode to_bytes from_bytes next _ codec saved in
        inr (inr (_, encoded, refl, ground (arith, row, quiet.inserts), row))

    commit_row-Answered :
        (request : CommitRequest) (s : DurableRunState)
        → is_blank request.idempotency_key.value ≡ false
        → is_empty request.mutations ≡ false
        → s.revision + 1 < u64_max
        → IsRecorded encode s
        → IsCoded encode to_bytes from_bytes (commit_to encode request s).1
        → Answered s
            (commit_to encode request s).0
            (commit_to encode request s).1
            (commit_row encode to_bytes from_bytes answers request s)
    commit_row-Answered request s b n room h codec =
        Commits-Answered request s _ _ b n room h codec (commit_to-Commits encode request s)

    prepare_commit-present :
        (request : CommitRequest) (table : Table) (s : DurableRunState)
        → HasRow table request.run_id s
        → s.run_id ≡ request.run_id
        → prepare_commit encode to_bytes from_bytes answers request table
          ≡ commit_row encode to_bytes from_bytes answers request s
    unfolding prepare_commit decode_row
    prepare_commit-present request table s row name = ground (
      arith,
      quiet.opens,
      quiet.begins,
      quiet.opens_table,
      quiet.gets,
      row.stored,
      row.decoded,
      ==_iff s.run_id request.run_id,
    )

    prepare_commit-absent :
        (request : CommitRequest) (table : Table)
        → Map.get table request.run_id ≡ none
        → prepare_commit encode to_bytes from_bytes answers request table
          ≡ err (run_not_found request.run_id)
    unfolding prepare_commit
    prepare_commit-absent request table h =
        ground (arith, quiet.opens, quiet.begins, quiet.opens_table, quiet.gets)

  -- One row is written, and the others stay.
  update-Holds :
      (before after : Table) (store : InMemoryDurableStore) (r : RunId) (s next : DurableRunState)
      → Holds before store
      → Map.get store.runs r ≡ some s
      → HasRow after r next
      → ((q : RunId) → (r == q) ≡ false → Map.get after q ≡ Map.get before q)
      → Holds after (record { runs = Map.update store.runs r (λ _. next) })
  update-Holds before after store r s next h e row others = record {
    absent = λ q k. elim (Bool-cases (r == q)) [
      | inl l ↦ ground (arith, Map.get-update store.runs r (λ _. next) q, ==_iff r q)
      | inr l ↦ ground (arith, Map.get-update store.runs r (λ _. next) q, h.absent q, others q l)
    ];
    present = λ q t k. elim (Bool-cases (r == q)) [
      | inl l ↦
          let same : next ≡ t =
            ground (arith, Map.get-update store.runs r (λ _. next) q, ==_iff r q) in
          subst (λ p. HasRow after p t) ((==_iff r q).0 l) (subst (HasRow after r) same row)
      | inr l ↦
          let old = h.present q t (ground (arith, Map.get-update store.runs r (λ _. next) q)) in
          record { row = old.row; stored = others q l ∙ old.stored; decoded = old.decoded }
    ];
  }

  -- The same result, and tables that hold the same runs.
  pub record Refines (file : Outcome StoreError CommitResult × Table)
      (memory : Outcome StoreError CommitResult × InMemoryDurableStore) : Type 0 where
    pub result : file.0 ≡ memory.0
    pub holds : Holds file.1 memory.1

  -- Where postcard reads back the snapshot that the commit makes, the file can be opened within the attempts and redb
  -- reports no error, a commit to the file returns what the same commit to the store in memory
  -- returns, and the rows hold the same runs afterwards. The key of the request is not blank, the
  -- store in memory is one that calls made, and the run is more than one revision below the last.
  pub commit-Refines :
      (answers : Answers) (request : CommitRequest) (table : Table) (store : InMemoryDurableStore)
      → ((s : DurableRunState)
          → Map.get store.runs request.run_id ≡ some s
          → IsCoded encode to_bytes from_bytes (commit_to encode request s).1)
      → IsQuiet answers
      → is_blank request.idempotency_key.value ≡ false
      → ((s : DurableRunState)
          → Map.get store.runs request.run_id ≡ some s
          → s.revision + 1 < u64_max)
      → IsStore encode store
      → Holds table store
      → Refines
          (File.commit encode to_bytes from_bytes answers request table)
          (Store.commit encode request store)
  unfolding File.commit Store.commit
  commit-Refines answers request table store codec quiet b room stored h =
      elim (Bool-cases (is_empty request.mutations)) [
        | inl n ↦ rw n (record { result = refl; holds = h })
        | inr n ↦ elim (Option-cases (Map.get store.runs request.run_id)) [
          | inl e ↦
              rw
                (
                  n,
                  e,
                  prepare_commit-absent answers quiet request table (h.absent request.run_id e),
                )
                (record { result = refl; holds = h })
          | inr (s, e) ↦
              let is = stored request.run_id s e in
              let row = h.present request.run_id s e in
              let next = (commit_to encode request s).1 in
              let prepared = prepare_commit-present answers quiet request table s row is.name in
              rw (n, e, prepared)
                (elim (commit_row-Answered answers quiet request s b n (room s e) is.recorded
                  (codec s e)) [
                    | inl (x, result, answered, same) ↦ rw answered (record {
                      result = sym result;
                      holds =
                          update-Holds table table store request.run_id s next h e
                            (subst (HasRow table request.run_id) (sym same) row) (λ q k. refl);
                    })
                    | inr (inl (done, result, answered, same)) ↦ rw answered (record {
                      result = sym result;
                      holds =
                          update-Holds table table store request.run_id s next h e
                            (subst (HasRow table request.run_id) (sym same) row) (λ q k. refl);
                    })
                    | inr (inr (done, encoded, result, answered, written)) ↦
                        rw (answered, quiet.commits)
                          (record {
                            result = sym result;
                            holds =
                                update-Holds table (Map.insert table request.run_id encoded) store
                                  request.run_id s next h e
                                  (record {
                                    row = encoded;
                                    stored = ground (
                                      arith,
                                      Map.get-insert table request.run_id encoded request.run_id,
                                      ==_refl request.run_id,
                                    );
                                    decoded =
                                        encode_state-decode_state encode to_bytes from_bytes next
                                          encoded (codec s e) written;
                                  })
                                  (λ q k.
                                    ground (arith, Map.get-insert table request.run_id encoded q));
                          })
                  ])
        ]
      ]
