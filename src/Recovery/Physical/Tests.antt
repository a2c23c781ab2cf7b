-- ===== src/Recovery/Physical/Tests.antt =====
-- A commit to a table of one row, and the theorem at it.
use kernis.Base.{
  ℕ, zero, suc, ◌+◌, ◌<◌, ◌≡◌, refl, subst, some, none, List, [], ◌∷◌, ok, err, Outcome, Bool-cases,
  inl, inr, arith, length, ◌==◌, ==_iff,
}
use kernis.Core.{id, id_ord, u64_max}
use kernis.BTree.Map
use kernis.Recovery.Durable.Facts.{PersistedRunSnapshot}
use kernis.Recovery.Durable.State
use kernis.Recovery.Durable.State.{DurableRunState}
use kernis.Recovery.Durable.Snapshot.{from_persisted_snapshot}
use kernis.Recovery.Durable.Store
use kernis.Recovery.Durable.Store.{new_store, commit_to}
use kernis.Recovery.Durable.Calls.{call_create, run-IsStore_from, new_store-IsStore}
use kernis.Recovery.Durable.Tests.{encode, prepare, store_of, runs}
use kernis.Recovery.Physical.Format.{checksum, framed, decode_payload, decode_state}
use kernis.Recovery.Physical.File
use kernis.Recovery.Physical.File.{
  Answers, Table, opened, already_open, open_from, open_existing_database,
}
use kernis.Recovery.Physical.RoundTrip.{Codes, IsCoded}
use kernis.Recovery.Physical.Refines.{IsQuiet, HasRow, Holds, Refines, commit-Refines}

abbrev prepared : DurableRunState
prepared = (commit_to encode prepare (State.new (id "run"))).1

abbrev target : PersistedRunSnapshot
target = record { run_id = id "run"; commit_ledger = prepared.commit_ledger }

-- A stand-in for postcard that tells the two snapshots of the run apart.
abbrev to_bytes : PersistedRunSnapshot → Outcome (List ℕ) (List ℕ)
to_bytes snapshot = ok (length snapshot.commit_ledger ∷ [])

abbrev from_bytes : List ℕ → Outcome (List ℕ) (PersistedRunSnapshot × List ℕ)
from_bytes [] = err []
from_bytes (zero ∷ rest) = ok (record { run_id = id "run"; commit_ledger = [] }, rest)
from_bytes (suc _ ∷ rest) = ok (target, rest)

-- The file is held by another handle at the first attempt.
abbrev answers : Answers
answers = record {
  open_file = λ attempt. elim attempt [ zero ↦ already_open | suc _ ↦ opened ];
  begin = none;
  open_table = none;
  get = none;
  insert = none;
  commit = none;
}

abbrev table : Table
table = (id "run", framed (0 ∷ [])) ∷ []

-- All that a row computes with.
rows : Unit {0}
unfolding runs framed checksum decode_payload decode_state from_persisted_snapshot open_from
    open_existing_database
rows = tt

answers-IsQuiet : IsQuiet answers
unfolding rows
answers-IsQuiet = record {
  opens = refl;
  begins = refl;
  opens_table = refl;
  gets = refl;
  inserts = refl;
  commits = refl;
}

only_run :
    (s : DurableRunState)
    → Map.get (store_of (call_create (id "run") ∷ [])).runs (id "run") ≡ some s
    → State.new (id "run") ≡ s
unfolding rows
only_run s e = ground arith

table-Holds : Holds encode to_bytes from_bytes table (store_of (call_create (id "run") ∷ []))
unfolding rows
table-Holds = record {
  absent = λ r e. ground arith;
  present = λ r s e. elim (Bool-cases (id "run" == r)) [
    | inl k ↦
        let same : State.new (id "run") ≡ s = ground arith in
        let here : HasRow encode to_bytes from_bytes table (id "run") (State.new (id "run")) =
          record { row = framed (0 ∷ []); stored = refl; decoded = refl } in
        subst (λ q. HasRow encode to_bytes from_bytes table q s) ((==_iff (id "run") r).0 k)
          (subst (HasRow encode to_bytes from_bytes table (id "run")) same here)
    | inr k ↦ ground arith
  ];
}

prepared-IsCoded : IsCoded encode to_bytes from_bytes prepared
unfolding rows
prepared-IsCoded snapshot e =
    let same : target ≡ snapshot = ground arith in
    subst (Codes encode to_bytes from_bytes) same
      (record { bytes = 1 ∷ []; written = refl; read_back = refl })

commit-Refines_example :
    Refines encode to_bytes from_bytes
      (File.commit encode to_bytes from_bytes answers prepare table)
      (Store.commit encode prepare (store_of (call_create (id "run") ∷ [])))
unfolding runs
commit-Refines_example =
    commit-Refines encode to_bytes from_bytes answers prepare table
      (store_of (call_create (id "run") ∷ []))
      (λ s e.
        subst (λ n. IsCoded encode to_bytes from_bytes (commit_to encode prepare n).1)
          (only_run s e) prepared-IsCoded)
      answers-IsQuiet refl
      (λ s e. subst (λ n. n.revision + 1 < u64_max) (only_run s e) (omega arith))
      (run-IsStore_from encode (call_create (id "run") ∷ []) new_store refl
        (new_store-IsStore encode))
      table-Holds
