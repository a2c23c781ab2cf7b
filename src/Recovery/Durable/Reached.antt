-- ===== src/Recovery/Durable/Reached.antt =====
-- The runs of a store that calls made: they can be saved, and the journal can be rebuilt from them.
use kernis.Base.{◌≡◌, subst, true, List, if◌then◌else◌, ltb, ok, err, ℕ}
use kernis.Core.{u64_max}
use kernis.Recovery.Journal.{DurableJournal}
use kernis.Recovery.Durable.Facts.{
  RunId, DurableMutation, StoreRevision, IdempotencyKey, data_corruption, exhausted_sequence,
}
use kernis.Recovery.Durable.State.{DurableRunState}
use kernis.Recovery.Durable.Snapshot.{persisted_snapshot}
use kernis.Recovery.Durable.Store.{new_store, load_run}
use kernis.Recovery.Durable.Restore.{persisted_snapshot-IsRecorded}
use kernis.Recovery.Durable.Calls.{Call, all_keyed, run, load_run-IsStored}
use kernis.Recovery.Durable.View.{from_durable_state}
use kernis.Recovery.Durable.View.Agree.{Agrees, from_durable_state-Agrees}

module _ (encode : IdempotencyKey → List DurableMutation → StoreRevision → List ℕ) where
  -- Where no key that callers gave is blank, the snapshot of a run of the store is its name and its
  -- ledger, as long as its revision is below the last one, 2^64 - 1. A run that has reached that
  -- revision cannot be saved any more.
  pub load_run-saves :
      (cs : List Call) (r : RunId) (s : DurableRunState)
      → all_keyed cs ≡ true
      → load_run (run encode cs new_store) r ≡ ok s
      → persisted_snapshot encode s ≡ (
          if ltb s.revision u64_max
          then ok (record { run_id = r; commit_ledger = s.commit_ledger })
          else err (data_corruption exhausted_sequence))
  load_run-saves cs r s k h =
      let stored = load_run-IsStored encode cs r s k h in
      subst
        (λ name. persisted_snapshot encode s ≡ (
          if ltb s.revision u64_max
          then ok (record { run_id = name; commit_ledger = s.commit_ledger })
          else err (data_corruption exhausted_sequence)))
        stored.name (persisted_snapshot-IsRecorded encode s stored.recorded)

  -- Where no key that callers gave is blank, the journal of a run of the store can be rebuilt, and it
  -- answers as the run does: the intent of every operation, its latest dispatch, the outcome of that,
  -- and the state that recovery starts from.
  pub load_run-view :
      (cs : List Call) (r : RunId) (s : DurableRunState)
      → all_keyed cs ≡ true
      → load_run (run encode cs new_store) r ≡ ok s
      → (j : DurableJournal) × (from_durable_state s ≡ ok j) × Agrees s j
  load_run-view cs r s k h =
      from_durable_state-Agrees s (load_run-IsStored encode cs r s k h).recorded.consistent
