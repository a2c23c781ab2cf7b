-- ===== src/Recovery/Durable/Snapshot.antt =====
-- crates/workflow-recovery/src/durable.rs: the snapshot of a run, which is its commit ledger, and the
-- test that the facts in memory are the ones that the ledger replays to.
use kernis.Base.{
  ℕ, Bool, false, ◌&&◌, ◌||◌, Option, none, some, List, [], ◌∷◌, if◌then◌else◌, ◌=ℕ◌, Outcome, ok,
  err, ◌>>=◌, option_eq, list_eq, pair_eq, nat_eq,
}
use kernis.Core.{id_ord, id_eq, is_blank}
use kernis.BTree.Map
use kernis.BTree.Map.{Map}
use kernis.Recovery.Durable.Facts.{
  StoreRevision, IdempotencyKey, DurableMutation, WorkflowReplayIdentity, PersistedRunSnapshot,
  StoreError, data_corruption, empty_persisted_identity, invalid_idempotency_metadata,
  inconsistent_lineage,
}
use kernis.Recovery.Durable.Same.{
  same, mutation_eq, identity_eq, admission_eq, intent_eq, cancellation_eq, dispatch_eq, result_eq,
  completion_eq, key_eq,
}
use kernis.Recovery.Durable.State.{DurableRunState}
use kernis.Recovery.Durable.Apply.{Applied}
use kernis.Recovery.Durable.Ledger.{replay_commit_ledger}

abbrev pub blank_identity : Option WorkflowReplayIdentity → Bool
blank_identity none = false
blank_identity (some identity) = is_blank identity.value

-- The loop over `self.idempotency.keys()`: is a key blank?
abbrev pub any_blank : List IdempotencyKey → Bool
any_blank [] = false
any_blank (key ∷ keys) = is_blank key.value || any_blank keys

-- The fields that `validate_persisted` compares.
unfoldable pub same_facts : DurableRunState → DurableRunState → Bool
same_facts a b =
    a.revision =ℕ b.revision
    && same a.workflow_replay_identity b.workflow_replay_identity
    && same a.admissions b.admissions
    && same a.admission_history b.admission_history
    && same a.intents b.intents
    && same a.task_operations b.task_operations
    && same a.cancellations b.cancellations
    && same a.dispatches b.dispatches
    && same a.dispatch_history b.dispatch_history
    && same a.outcomes b.outcomes
    && same a.outcome_history b.outcome_history
    && same a.completions b.completions
    && same a.completion_history b.completion_history
    && same a.idempotency b.idempotency

module _ (encode : IdempotencyKey → List DurableMutation → StoreRevision → List ℕ) where
  unfoldable pub validate_persisted : DurableRunState → Outcome StoreError (Unit {0})
  validate_persisted s =
      if blank_identity s.workflow_replay_identity
      then err (data_corruption empty_persisted_identity)
      else if any_blank (Map.keys s.idempotency)
      then err (data_corruption invalid_idempotency_metadata)
      else (replay_commit_ledger encode s.run_id s.commit_ledger >>= λ reconstructed.
          if same_facts reconstructed s then ok tt else err (data_corruption inconsistent_lineage))

  unfoldable pub persisted_snapshot : DurableRunState → Outcome StoreError PersistedRunSnapshot
  persisted_snapshot s = validate_persisted s >>= λ _.
      ok (record { run_id = s.run_id; commit_ledger = s.commit_ledger })

  unfoldable pub from_persisted_snapshot : PersistedRunSnapshot → Applied
  from_persisted_snapshot snapshot =
      replay_commit_ledger encode snapshot.run_id snapshot.commit_ledger
