-- ===== src/Recovery/Durable/Restore.antt =====
-- Snapshots of a run: what is saved is what is restored.
use kernis.Base.{
  ℕ, ◌+◌, ◌≡◌, ap, ◌∙◌, subst, true, List, [], ◌∷◌, ◌++◌, ok, err, arith, Outcome-cases, inl, inr,
  if◌then◌else◌, append_assoc, append-nil, ltb, list_eq, option_eq, pair_eq, nat_eq,
}
use kernis.Core.{id_ord, id_eq, u64_max}
use kernis.BTree.Map
use kernis.BTree.Map.{Map}
use kernis.Recovery.Durable.Facts.{
  DurableMutation, StoreRevision, initial_revision, IdempotencyKey, CommitLedgerEntry,
  data_corruption, exhausted_sequence, PersistedRunSnapshot,
}
use kernis.Recovery.Durable.Same.{
  key_ord, same_iff, mutation_eq, identity_eq, admission_eq, intent_eq, cancellation_eq,
  dispatch_eq, result_eq, completion_eq, key_eq,
}
use kernis.Recovery.Durable.State.{DurableRunState, new}
use kernis.Recovery.Durable.Apply.{Applied}
use kernis.Recovery.Durable.Ledger.{apply_all, replay_entry, replay_entries, replay_commit_ledger}
use kernis.Recovery.Durable.Snapshot.{
  same_facts, validate_persisted, persisted_snapshot, from_persisted_snapshot,
}
use kernis.Recovery.Durable.Books.{apply_all-Applies}
use kernis.Recovery.Durable.Recorded.{IsRecorded, replay_commit_ledger-IsRecorded}

-- The comparison of `validate_persisted` tells states of one run with one ledger apart.
pub same_facts-eq :
    (a b : DurableRunState)
    → a.run_id ≡ b.run_id
    → a.commit_ledger ≡ b.commit_ledger
    → same_facts a b ≡ true
    → a ≡ b
unfolding same_facts
same_facts-eq a b r l h = ground (
  arith,
  same_iff a.workflow_replay_identity b.workflow_replay_identity,
  same_iff a.admissions b.admissions,
  same_iff a.admission_history b.admission_history,
  same_iff a.intents b.intents,
  same_iff a.task_operations b.task_operations,
  same_iff a.cancellations b.cancellations,
  same_iff a.dispatches b.dispatches,
  same_iff a.dispatch_history b.dispatch_history,
  same_iff a.outcomes b.outcomes,
  same_iff a.outcome_history b.outcome_history,
  same_iff a.completions b.completions,
  same_iff a.completion_history b.completion_history,
  same_iff a.idempotency b.idempotency,
)

same_facts_refl : (a : DurableRunState) → same_facts a a ≡ true
unfolding same_facts
same_facts_refl a = ground (
  arith,
  same_iff a.workflow_replay_identity a.workflow_replay_identity,
  same_iff a.admissions a.admissions,
  same_iff a.admission_history a.admission_history,
  same_iff a.intents a.intents,
  same_iff a.task_operations a.task_operations,
  same_iff a.cancellations a.cancellations,
  same_iff a.dispatches a.dispatches,
  same_iff a.dispatch_history a.dispatch_history,
  same_iff a.outcomes a.outcomes,
  same_iff a.outcome_history a.outcome_history,
  same_iff a.completions a.completions,
  same_iff a.completion_history a.completion_history,
  same_iff a.idempotency a.idempotency,
)

module _ (encode : IdempotencyKey → List DurableMutation → StoreRevision → List ℕ) where
  -- An entry that replays is added to the ledger of the run.
  replay_entry-ledger :
      (s : DurableRunState) (n : ℕ) (entry : CommitLedgerEntry) (next : DurableRunState)
      → replay_entry encode s n entry ≡ ok next
      → (next.run_id ≡ s.run_id) × (next.commit_ledger ≡ s.commit_ledger ++ entry ∷ [])
  unfolding replay_entry
  replay_entry-ledger s n entry next h =
      let indexed : DurableRunState = record s {
        idempotency =
            Map.insert s.idempotency entry.idempotency_key (entry.mutations, entry.revision);
      } in
      elim (Outcome-cases (apply_all indexed entry.mutations)) [
        | inl (mid, e) ↦
            let done = apply_all-Applies indexed entry.mutations mid e in
            let same_ledger : mid.commit_ledger ≡ s.commit_ledger =
              ap (λ b. b.commit_ledger) done.same_books in
            (ground (arith, done.keeps.run_id), ground (arith, same_ledger))
        | inr (inl (x, e)) ↦ ground arith
        | inr (inr (f, e)) ↦ ground arith
      ]

  replay_entries-ledger :
      (s : DurableRunState) (n : ℕ) (entries : List CommitLedgerEntry) (last : DurableRunState)
      → replay_entries encode s n entries ≡ ok last
      → (last.run_id ≡ s.run_id) × (last.commit_ledger ≡ s.commit_ledger ++ entries)
  unfolding replay_entries
  replay_entries-ledger s n [] last h = (ground arith, ground (arith, append-nil s.commit_ledger))
  replay_entries-ledger s n (entry ∷ entries) last h =
      elim (Outcome-cases (replay_entry encode s n entry)) [
        | inl (next, e) ↦
            let one = replay_entry-ledger s n entry next e in
            let following : replay_entries encode next (n + 1) entries ≡ ok last = ground arith in
            let rest = replay_entries-ledger next (n + 1) entries last following in
            (
              rest.0 ∙ one.0,
              rest.1
                  ∙ ap (λ l. l ++ entries) one.1
                  ∙ append_assoc s.commit_ledger (entry ∷ []) entries,
            )
        | inr (inl (x, e)) ↦ ground arith
        | inr (inr (f, e)) ↦ ground arith
      ]

  -- Whatever state can be saved, reachable or not, is restored from its snapshot as it was, field by
  -- field.
  pub persisted_snapshot-restores :
      (s : DurableRunState) (snapshot : PersistedRunSnapshot)
      → persisted_snapshot encode s ≡ ok snapshot
      → from_persisted_snapshot encode snapshot ≡ ok s
  unfolding persisted_snapshot from_persisted_snapshot validate_persisted replay_commit_ledger
  persisted_snapshot-restores s snapshot h =
      let replay : Applied =
        replay_entries encode (new s.run_id) (initial_revision + 1) s.commit_ledger in
      elim (Outcome-cases replay) [
        | inl (t, e) ↦
            let (run, ledger) =
              replay_entries-ledger (new s.run_id) (initial_revision + 1) s.commit_ledger t e in
            let saved : record { run_id = s.run_id; commit_ledger = s.commit_ledger } ≡ snapshot =
              ground arith in
            let same : same_facts t s ≡ true = ground arith in
            subst
              (λ x.
                replay_entries encode (new x.run_id) (initial_revision + 1) x.commit_ledger ≡ ok s)
              saved (e ∙ ap ok (same_facts-eq t s run ledger same))
        | inr (inl (x, e)) ↦ ground arith
        | inr (inr (f, e)) ↦ ground arith
      ]

  -- A recorded state before the last revision can be saved.
  pub persisted_snapshot-IsRecorded :
      (s : DurableRunState)
      → IsRecorded encode s
      → persisted_snapshot encode s ≡ (
          if ltb s.revision u64_max
          then ok (record { run_id = s.run_id; commit_ledger = s.commit_ledger })
          else err (data_corruption exhausted_sequence))
  unfolding persisted_snapshot validate_persisted
  persisted_snapshot-IsRecorded s h =
      ground
        (arith, h.named, h.keyed, replay_commit_ledger-IsRecorded encode s h, same_facts_refl s)
