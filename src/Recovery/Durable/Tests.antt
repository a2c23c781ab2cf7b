-- ===== src/Recovery/Durable/Tests.antt =====
-- Runs of the durable store on small inputs, and the theorems at them.
use kernis.Base.{
  ℕ, ◌≡◌, ◌↔◌, ◌≤◌, refl, true, false, some, none, List, [], ◌∷◌, ◌++◌, ok, err, if◌then◌else◌, ltb,
  String, codes, ap, ◌==◌, option_eq, list_eq, pair_eq, nat_eq,
}
use kernis.Core.{id, id_ord, id_eq, is_blank, is_whitespace, u64_max}
use kernis.BTree.Map
use kernis.BTree.Set
use kernis.Recovery.Model.{non_idempotent, succeeded}
use kernis.Recovery.Journal.{DurableJournal}
use kernis.Recovery.Durable.Facts
use kernis.Recovery.Durable.Facts.{
  IdempotencyKey, DurableMutation, StoreRevision, CommitRequest, CommitResult, admit_attempt,
  record_intent, record_cancellation, record_dispatch, record_outcome, record_completion,
  record_workflow_replay_identity, data_corruption, exhausted_sequence, single,
}
use kernis.Recovery.Durable.Same.{key_ord}
use kernis.Recovery.Durable.State.{DurableRunState, latest_dispatch, is_cancelled}
use kernis.Recovery.Durable.State
use kernis.Recovery.Durable.Apply.{
  apply_identity, apply_admission, apply_intent, apply_cancellation, admit_dispatch, apply_dispatch,
  settle_outcome, apply_outcome, missing_evidence, settle_completion, apply_completion,
  apply_mutation,
}
use kernis.Recovery.Durable.Ledger.{
  apply_all, fnv, commit_binding, record_commit, replay_entry, replay_entries, replay_commit_ledger,
}
use kernis.Recovery.Durable.Snapshot.{
  same_facts, validate_persisted, persisted_snapshot, from_persisted_snapshot,
}
use kernis.Recovery.Durable.Store.{
  new_store, create_run, load_run, commit, commit_to, InMemoryDurableStore,
}
use kernis.Recovery.Durable.Step.{Step}
use kernis.Recovery.Durable.Complete.{apply_mutation-iff-Step}
use kernis.Recovery.Durable.Calls
use kernis.Recovery.Durable.Calls.{Call, call_create, call_commit, IsStored, load_run-IsStored}
use kernis.Recovery.Durable.Restore.{persisted_snapshot-restores}
use kernis.Recovery.Durable.Transactions.{
  IsTransaction, commit-IsTransaction, commit_retry, commit_race,
}
use kernis.Recovery.Durable.Cancelled.{NoneDispatched, cancelled-NoneDispatched}
use kernis.Recovery.Durable.Reached.{load_run-saves, load_run-view}
use kernis.Recovery.Durable.View.{from_durable_state}
use kernis.Recovery.Durable.View.Agree.{Agrees}

-- A stand-in for the encoding: the key, the number of mutations and the revision.
abbrev pub encode : IdempotencyKey → List DurableMutation → StoreRevision → List ℕ
encode key mutations revision = key.value ++ revision ∷ []

abbrev pub key : String → IdempotencyKey
key s = record { value = codes s }

abbrev pub admission : DurableMutation
admission = admit_attempt (record {
  run_id = id "run";
  task_id = id "charge";
  attempt_id = id "try";
  operation_id = some (id "op");
  capabilities = [];
})

abbrev pub intent : DurableMutation
intent =
    record_intent
      (record { task_id = id "charge"; operation_id = id "op"; semantics = non_idempotent })

abbrev dispatch : DurableMutation
dispatch = record_dispatch (record { operation_id = id "op"; attempt_id = id "try" })

abbrev outcome : DurableMutation
outcome =
    record_outcome (record { operation_id = id "op"; attempt_id = id "try"; outcome = succeeded })

abbrev completion : DurableMutation
completion = record_completion (record { task_id = id "charge"; attempt_id = id "try" })

abbrev cancellation : DurableMutation
cancellation = record_cancellation (record {
  run_id = id "run";
  task_id = id "charge";
  operation_id = some (id "op");
  attempt_id = some (id "try");
})

abbrev admission_of_next : DurableMutation
admission_of_next = admit_attempt (record {
  run_id = id "run";
  task_id = id "notify";
  attempt_id = id "next";
  operation_id = none;
  capabilities = [];
})

abbrev pub request : StoreRevision → String → List DurableMutation → CommitRequest
request expected name mutations = record {
  run_id = id "run";
  expected_revision = expected;
  idempotency_key = key name;
  mutations = mutations;
}

abbrev pub prepare : CommitRequest
prepare = request 0 "prepare" (admission ∷ intent ∷ [])

-- A charge that is prepared, dispatched and completed, with a stale commit in between.
abbrev charge : List Call
charge =
    call_create (id "run")
    ∷ call_commit prepare
    ∷ call_commit (request 0 "stale" (dispatch ∷ []))
    ∷ call_commit (request 1 "send" (dispatch ∷ []))
    ∷ call_commit (request 2 "finish" (outcome ∷ completion ∷ []))
    ∷ []

abbrev cancel : List Call
cancel =
    call_create (id "run")
    ∷ call_commit prepare
    ∷ call_commit (request 1 "cancel" (cancellation ∷ []))
    ∷ []

abbrev send : List Call
send = call_commit (request 2 "send" (dispatch ∷ [])) ∷ []

abbrev pub store_of : List Call → InMemoryDurableStore
store_of cs = Calls.run encode cs new_store

abbrev pub run_of : List Call → DurableRunState
run_of cs = elim (load_run (store_of cs) (id "run")) [ ok s ↦ s | _ ↦ State.new (id "run") ]

-- All that a run computes with.
unfoldable pub runs : Unit {0}
unfolding Calls.run Calls.perform create_run load_run commit commit_to Facts.checked_next apply_all
    apply_mutation apply_identity apply_admission apply_intent apply_cancellation admit_dispatch
    apply_dispatch settle_outcome apply_outcome missing_evidence settle_completion apply_completion
    latest_dispatch record_commit commit_binding fnv id_ord Map.get Map.insert Map.update is_blank
    is_whitespace is_cancelled Set.contains key_ord option_eq list_eq pair_eq nat_eq id_eq
    replay_entry replay_entries replay_commit_ledger same_facts validate_persisted
    persisted_snapshot
runs = tt

revision_of : (run_of charge).revision ≡ 3
unfolding runs
revision_of = refl

completed : State.is_completed (run_of charge) (id "charge") ≡ true
unfolding runs State.is_completed
completed = refl

refused : (run_of (cancel ++ send)).dispatch_history ≡ []
unfolding runs
refused = refl

abbrev dispatched : DurableRunState
dispatched =
    elim (apply_mutation (run_of (call_create (id "run") ∷ call_commit prepare ∷ [])) dispatch) [
      | ok s ↦ s
      | _ ↦ State.new (id "run")
    ]

apply_mutation-iff-Step_example :
    (apply_mutation (run_of (call_create (id "run") ∷ call_commit prepare ∷ [])) dispatch
      ≡ ok dispatched)
    ↔ Step (run_of (call_create (id "run") ∷ call_commit prepare ∷ [])) dispatch dispatched
apply_mutation-iff-Step_example =
    apply_mutation-iff-Step (run_of (call_create (id "run") ∷ call_commit prepare ∷ [])) dispatch
      dispatched

load_run-IsStored_example : IsStored encode (id "run") (run_of charge)
unfolding runs
load_run-IsStored_example = load_run-IsStored encode charge (id "run") (run_of charge) refl refl

commit-IsTransaction_example :
    IsTransaction encode
      (request 3 "again" (dispatch ∷ []))
      (store_of charge)
      (commit encode (request 3 "again" (dispatch ∷ [])) (store_of charge)).0
      (commit encode (request 3 "again" (dispatch ∷ [])) (store_of charge)).1
commit-IsTransaction_example =
    commit-IsTransaction encode (request 3 "again" (dispatch ∷ [])) (store_of charge)

commit_retry_example :
    (s : DurableRunState) × (load_run
        (Calls.run encode cancel
          (commit encode (request 3 "name" (admission_of_next ∷ [])) (store_of charge)).1)
        (id "run")
      ≡ ok s)
    × (4 ≤ s.revision)
    × (commit encode (request 3 "name" (admission_of_next ∷ [])) (
          Calls.run encode cancel
            (commit encode (request 3 "name" (admission_of_next ∷ [])) (store_of charge)).1)
        ≡ (
          ok (record { revision = s.revision; replayed = true }),
          Calls.run encode cancel
              (commit encode (request 3 "name" (admission_of_next ∷ [])) (store_of charge)).1,
        ))
unfolding runs
commit_retry_example =
    commit_retry encode (request 3 "name" (admission_of_next ∷ [])) (store_of charge)
      (record { revision = 4; replayed = false }) cancel refl

commit_race_example :
    commit encode
      (request 3 "late" (dispatch ∷ []))
      (commit encode (request 3 "name" (admission_of_next ∷ [])) (store_of charge)).1
    ≡ (
      err (Facts.revision_conflict 3 4),
      (commit encode (request 3 "name" (admission_of_next ∷ [])) (store_of charge)).1,
    )
unfolding runs
commit_race_example =
    commit_race encode (request 3 "name" (admission_of_next ∷ []))
      (request 3 "late" (dispatch ∷ [])) (store_of charge)
      (record { revision = 4; replayed = false }) (run_of charge) refl refl refl refl refl
      (λ e. let apart : true ≡ false = ap (λ k. key "name" == k) e in cc) refl refl

cancelled-NoneDispatched_example :
    NoneDispatched (id "charge") (run_of cancel) (run_of (cancel ++ send))
unfolding runs
cancelled-NoneDispatched_example =
    cancelled-NoneDispatched encode (id "charge") cancel send (id "run") (run_of cancel)
      (run_of (cancel ++ send)) refl refl refl refl refl

persisted_snapshot-restores_example :
    from_persisted_snapshot encode
      (record { run_id = id "run"; commit_ledger = (run_of charge).commit_ledger })
    ≡ ok (run_of charge)
unfolding runs
persisted_snapshot-restores_example =
    persisted_snapshot-restores encode (run_of charge)
      (record { run_id = id "run"; commit_ledger = (run_of charge).commit_ledger }) refl

load_run-saves_example : persisted_snapshot encode (run_of charge) ≡ (
    if ltb (run_of charge).revision u64_max
    then ok (record { run_id = id "run"; commit_ledger = (run_of charge).commit_ledger })
    else err (data_corruption exhausted_sequence))
unfolding runs
load_run-saves_example = load_run-saves encode charge (id "run") (run_of charge) refl refl

load_run-view_example :
    (j : DurableJournal) × (from_durable_state (run_of charge) ≡ ok j) × Agrees (run_of charge) j
unfolding runs
load_run-view_example = load_run-view encode charge (id "run") (run_of charge) refl refl
