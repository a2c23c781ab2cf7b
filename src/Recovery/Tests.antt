-- ===== src/Recovery/Tests.antt =====
-- Runs of the journal and of the classification on small inputs, and the theorems at them.
use kernis.Base.{◌≡◌, refl, List, [], ◌∷◌, ok}
use kernis.Core.{id, id_ord}
use kernis.BTree.Map
use kernis.BTree.Set
use kernis.Workflow.Topology
use kernis.Workflow.Graph.{WorkflowGraph, default, is_completed}
use kernis.Recovery.Model.{
  idempotent, non_idempotent, succeeded, failed, reconcile, non_idempotent_outcome_unknown,
}
use kernis.Recovery.Journal.{
  new, persist_intent, persist_dispatch, persist_outcome, state, intent, latest_dispatch,
  known_outcome, latest_attempt, last, push_attempt,
}
use kernis.Recovery.Journal.Writes
use kernis.Recovery.Journal.Consistent.{IsConsistent}
use kernis.Recovery.Journal.Writes.{
  Write, write_intent, write_dispatch, write_outcome, journal-IsConsistent, Keeps, run-Keeps,
}
use kernis.Recovery.Classify.{classify_recovery, decide}
use kernis.Recovery.Classify.Safety.{ClassifyEnsures, classify_recovery-Ensures}

abbrev workflow : WorkflowGraph
workflow = record default {
  topology = record {
    tasks = (id "charge", record { id = id "charge"; label = [] }) ∷ [];
    dependencies = [];
  };
}

-- One intent, an attempt at it, a write for another task that is refused, and two outcomes that do
-- not agree.
abbrev writes : List Write
writes =
    write_intent
      (record { task_id = id "charge"; operation_id = id "op"; semantics = non_idempotent })
    ∷ write_dispatch (record { operation_id = id "op"; attempt_id = id "try" })
    ∷ write_intent (record { task_id = id "other"; operation_id = id "op"; semantics = idempotent })
    ∷ []

abbrev outcomes : List Write
outcomes =
    write_outcome (record { operation_id = id "op"; attempt_id = id "try"; outcome = succeeded })
    ∷ write_outcome (record { operation_id = id "op"; attempt_id = id "try"; outcome = failed })
    ∷ []

-- All that a run computes with.
runs : Unit {0}
unfolding Writes.run persist_intent persist_dispatch persist_outcome state intent latest_dispatch
    known_outcome latest_attempt last push_attempt classify_recovery decide is_completed id_ord
    Topology.task Map.insert Map.get Map.update Set.contains
runs = tt

reconciled :
    classify_recovery workflow (Writes.run writes new) (id "op")
    ≡ ok (record {
      action = reconcile;
      reason = non_idempotent_outcome_unknown (id "op") (id "try");
    })
unfolding runs
reconciled = refl

journal-IsConsistent_example : IsConsistent (Writes.run writes new)
journal-IsConsistent_example = journal-IsConsistent writes

run-Keeps_example : Keeps (Writes.run writes new) (Writes.run outcomes (Writes.run writes new))
run-Keeps_example = run-Keeps outcomes (Writes.run writes new)

classify_recovery-Ensures_example :
    ClassifyEnsures workflow
      (Writes.run writes new)
      (id "op")
      (classify_recovery workflow (Writes.run writes new) (id "op"))
classify_recovery-Ensures_example =
    classify_recovery-Ensures workflow (Writes.run writes new) (id "op")
      (journal-IsConsistent writes)
