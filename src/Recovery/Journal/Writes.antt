-- ===== src/Recovery/Journal/Writes.antt =====
-- Sequences of writes to a journal.
use kernis.Base.{◌≡◌, some, List, [], ◌∷◌, arith, ==_iff}
use kernis.Core.{TextId, id_ord}
use kernis.BTree.Map
use kernis.BTree.Map.{Map}
use kernis.Recovery.Model.{OperationId, AttemptId, EffectIntent, DispatchRecord, OutcomeRecord}
use kernis.Recovery.Journal.{
  DurableJournal, new, persist_intent, persist_dispatch, persist_outcome, settle,
}
use kernis.Recovery.Journal.Consistent.{
  IsConsistent, new-IsConsistent, persist_intent-IsConsistent, persist_dispatch-IsConsistent,
  persist_outcome-IsConsistent,
}

-- A write to a journal, successful or not.
pub data Write : Type 0 where
  write_intent : EffectIntent → Write
  write_dispatch : DispatchRecord → Write
  write_outcome : OutcomeRecord → Write

unfoldable pub perform : Write → DurableJournal → DurableJournal
perform (write_intent i) j = (persist_intent i j).1
perform (write_dispatch d) j = (persist_dispatch d j).1
perform (write_outcome o) j = (persist_outcome o j).1

-- The journal after a sequence of writes.
unfoldable pub run : List Write → DurableJournal → DurableJournal
unfolding perform
run [] j = j
run (w ∷ ws) j = run ws (perform w j)

pub perform-IsConsistent :
    (w : Write) (j : DurableJournal) → IsConsistent j → IsConsistent (perform w j)
unfolding perform
perform-IsConsistent (write_intent i) j h = persist_intent-IsConsistent j h i
perform-IsConsistent (write_dispatch d) j h = persist_dispatch-IsConsistent j h d
perform-IsConsistent (write_outcome o) j h = persist_outcome-IsConsistent j h o

pub run-IsConsistent_from :
    (ws : List Write) (j : DurableJournal) → IsConsistent j → IsConsistent (run ws j)
unfolding run
run-IsConsistent_from [] j h = h
run-IsConsistent_from (w ∷ ws) j h =
    run-IsConsistent_from ws (perform w j) (perform-IsConsistent w j h)

-- After any writes to a new journal, refused ones included, its maps agree: each task belongs to one
-- operation and each operation to one task, every dispatched attempt is of an operation with an
-- intent and stands in that operation's list and no other, and every outcome is of an attempt that
-- was dispatched for the operation that it names.
pub journal-IsConsistent : (ws : List Write) → IsConsistent (run ws new)
journal-IsConsistent ws = run-IsConsistent_from ws new new-IsConsistent

-- A fact once written is never changed.
pub record Keeps (j j' : DurableJournal) : Type 0 where
  pub intents :
      (op : OperationId) (i : EffectIntent)
      → Map.get j.intents op ≡ some i
      → Map.get j'.intents op ≡ some i
  pub owners :
      (t : TextId) (op : OperationId)
      → Map.get j.task_operations t ≡ some op
      → Map.get j'.task_operations t ≡ some op
  pub dispatches :
      (a : AttemptId) (d : DispatchRecord)
      → Map.get j.dispatches a ≡ some d
      → Map.get j'.dispatches a ≡ some d
  pub outcomes :
      (a : AttemptId) (o : OutcomeRecord)
      → Map.get j.outcomes a ≡ some o
      → Map.get j'.outcomes a ≡ some o

pub perform-Keeps : (w : Write) (j : DurableJournal) → Keeps j (perform w j)
unfolding perform persist_intent persist_dispatch persist_outcome settle
perform-Keeps (write_intent i) j = record {
  intents = λ op i' e.
      ground (arith, Map.get-insert j.intents i.operation_id i op, ==_iff i.operation_id op);
  owners = λ t op e.
      ground
        (arith, Map.get-insert j.task_operations i.task_id i.operation_id t, ==_iff i.task_id t);
  dispatches = λ a d e. ground arith;
  outcomes = λ a o e. ground arith;
}
perform-Keeps (write_dispatch d) j = record {
  intents = λ op i e. ground arith;
  owners = λ t op e. ground arith;
  dispatches =
      λ a d' e. ground (arith, Map.get-insert j.dispatches d.attempt_id d a, ==_iff d.attempt_id a);
  outcomes = λ a o e. ground arith;
}
perform-Keeps (write_outcome o) j = record {
  intents = λ op i e. ground arith;
  owners = λ t op e. ground arith;
  dispatches = λ a d e. ground arith;
  outcomes =
      λ a o' e. ground (arith, Map.get-insert j.outcomes o.attempt_id o a, ==_iff o.attempt_id a);
}

-- Facts are immutable: whatever writes follow, successful or not, an intent, the operation of a task,
-- a dispatch and an outcome stay as they were first written.
pub run-Keeps : (ws : List Write) (j : DurableJournal) → Keeps j (run ws j)
unfolding run
run-Keeps [] j = record {
  intents = λ op i e. e;
  owners = λ t op e. e;
  dispatches = λ a d e. e;
  outcomes = λ a o e. e;
}
run-Keeps (w ∷ ws) j =
    let now = perform-Keeps w j in
    let later = run-Keeps ws (perform w j) in
    record {
      intents = λ op i e. later.intents op i (now.intents op i e);
      owners = λ t op e. later.owners t op (now.owners t op e);
      dispatches = λ a d e. later.dispatches a d (now.dispatches a d e);
      outcomes = λ a o e. later.outcomes a o (now.outcomes a o e);
    }
