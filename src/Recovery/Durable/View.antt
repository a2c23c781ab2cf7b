-- ===== src/Recovery/Durable/View.antt =====
-- crates/workflow-recovery/src/journal.rs: `from_durable_state`, the journal of a durable run.
pub mod Intents
pub mod Dispatches
pub mod Outcomes
pub mod Agree
use kernis.Base.{List, [], ◌∷◌, Outcome, ok, err, fault, ◌>>=◌}
use kernis.Recovery.Model.{EffectIntent, DispatchRecord, OutcomeRecord}
use kernis.Recovery.Journal.{
  DurableJournal, JournalError, new, persist_intent, persist_dispatch, persist_outcome,
}
use kernis.Recovery.Durable.State.{DurableRunState, intents}

-- `journal.persist(…)?`: the journal after a write that succeeded.
abbrev pub then_journal :
    Outcome JournalError (Unit {0}) × DurableJournal → Outcome JournalError DurableJournal
then_journal (done, j) = done >>= λ _. ok j

unfoldable pub persist_intents :
    List EffectIntent → DurableJournal → Outcome JournalError DurableJournal
persist_intents [] j = ok j
persist_intents (i ∷ is) j = then_journal (persist_intent i j) >>= λ next. persist_intents is next

unfoldable pub persist_dispatches :
    List DispatchRecord → DurableJournal → Outcome JournalError DurableJournal
persist_dispatches [] j = ok j
persist_dispatches (d ∷ ds) j =
    then_journal (persist_dispatch d j) >>= λ next. persist_dispatches ds next

unfoldable pub persist_outcomes :
    List OutcomeRecord → DurableJournal → Outcome JournalError DurableJournal
persist_outcomes [] j = ok j
persist_outcomes (o ∷ os) j =
    then_journal (persist_outcome o j) >>= λ next. persist_outcomes os next

unfoldable pub from_durable_state : DurableRunState → Outcome JournalError DurableJournal
from_durable_state s =
    persist_intents (intents s) new
    >>= (λ j. persist_dispatches s.dispatch_history j)
    >>= (λ j. persist_outcomes s.outcome_history j)
