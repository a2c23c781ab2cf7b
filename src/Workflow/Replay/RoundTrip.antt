-- ===== src/Workflow/Replay/RoundTrip.antt =====
-- What holds of every graph that calls of the operations reach from the empty graph: it is well
-- formed, and replaying its logs gives it back.
use kernis.Base.{
  ◌≡◌, ◌≤◌, refl, sym, ap, ◌∙◌, subst, true, List, [], ◌∷◌, arith, ok, err, fault, ==_iff, length,
  length-append,
}
use mathlib.Core.WellFounded.{Acc}
use kernis.Core.{TextId, id_ord, Revision, u64_max, checked_next_lem}
use kernis.BTree.Map
use kernis.BTree.Set
use kernis.Workflow.Topology.{contains_task, dependencies, Edge}
use kernis.Workflow.Graph.{
  WorkflowGraph, CompletionRecord, WorkflowMutationRecord, MutationBatch, Fallible, is_completed,
  default, complete, apply_batch, record_completion,
}
use kernis.Workflow.Graph.Mutation.{IsWellFormed}
use kernis.Workflow.Graph.Batch.{Committed, BatchEnsures, apply_batch-Ensures}
use kernis.Workflow.Graph.Facts.{
  IsEnabled, CompleteEnsures, complete-Ensures, complete-eq-err, complete-eq-ok,
}
use kernis.Workflow.Replay.{
  Operation, complete_task, mutate, perform, run, replay_from, replay, replay_with_facts,
  complete_all,
}
use kernis.Workflow.Replay.Completions.{complete_all-append, complete_all-moved}
use kernis.Workflow.Replay.Mutations.{forget, replay_record-Committed, replay_from-append}

pub record IsValid (g : WorkflowGraph) : Type 0 where
  pub well_formed : IsWellFormed g.topology
  -- Only tasks are completed, and each after all that it waits for.
  pub known : (v : TextId) → is_completed g.facts v ≡ true → contains_task g.topology v ≡ true
  pub ordered :
      (v d : TextId)
      → is_completed g.facts v ≡ true
      → Edge g.topology v d
      → is_completed g.facts d ≡ true
  -- The revision counts the committed batches, and fits its word.
  pub counted : g.topology_revision ≡ length g.mutation_log
  pub fits : g.topology_revision ≤ u64_max
  -- The logs tell all.
  pub mutations_replay : replay g.mutation_log ≡ ok (forget g)
  pub completions_replay : complete_all g.facts.completion_log (forget g) ≡ ok g

default-IsValid : IsValid default
unfolding contains_task dependencies Map.get is_completed Set.contains replay complete_all
default-IsValid = record {
  well_formed = record {
    sources = λ v d e. cc;
    targets = λ v d e. cc;
    no_empty = λ v e. cc;
    acyclic = λ v c. Acc.intro v (λ d e. cc);
  };
  known = λ v c. cc;
  ordered = λ v d c e. cc;
  counted = refl;
  fits = omega arith;
  mutations_replay = refl;
  completions_replay = refl;
}

module _ (g : WorkflowGraph) (h : IsValid g) where
  completed-IsValid :
      (id : TextId)
      → IsEnabled g id
      → complete id g ≡ (ok (record { task_id = id }), record_completion id g)
      → IsValid (record_completion id g)
  unfolding is_completed complete_all
  completed-IsValid id en e =
      let done = λ (v : TextId). Set.contains-insert g.facts.completed id v in
      record {
        well_formed = h.well_formed;
        known = λ v c. ground (arith, done v, h.known v, ==_iff id v, en.is_task);
        ordered = λ v d c k.
            ground (arith, done v, done d, h.ordered v d, ==_iff id v, en.waits_for_none d);
        counted = h.counted;
        fits = h.fits;
        mutations_replay = h.mutations_replay;
        completions_replay =
            complete_all-append g.facts.completion_log (record { task_id = id } ∷ []) (forget g)
            ∙ rw h.completions_replay (rw e refl);
      }

  complete-IsValid : (id : TextId) → IsValid (complete id g).1
  complete-IsValid id = go (complete id g) refl (complete-Ensures id g)
    where
      go :
          (r : Fallible CompletionRecord × WorkflowGraph)
          → complete id g ≡ r
          → CompleteEnsures id g r
          → IsValid r.1
      go (ok r, g') e c =
          subst IsValid (sym (complete-eq-ok id g g' r e))
            (completed-IsValid id c.0 (ground (arith, complete-eq-ok id g g' r e)))
      go (err x, g') e c = subst IsValid (sym (complete-eq-err id g g' x e)) h
      go (fault x, g') e c = absurd c

  Committed-IsValid :
      (expected : Revision) (batch : MutationBatch) (r : WorkflowMutationRecord)
      (g' : WorkflowGraph)
      → apply_batch expected batch g ≡ (ok r, g')
      → Committed batch g r g'
      → IsValid g'
  unfolding replay replay_from
  Committed-IsValid expected batch r g' e c =
      let done = λ (v : TextId) (k : is_completed g'.facts v ≡ true).
        subst (λ f. is_completed f v ≡ true) c.same_facts k in
      record {
        well_formed = c.well_formed;
        known = λ v k. c.keeps_tasks v (h.known v (done v k));
        ordered = λ v d k w.
            subst (λ f. is_completed f d ≡ true) (sym c.same_facts)
              (h.ordered v d (done v k)
                (subst (λ ds. Set.contains ds d ≡ true) (c.keeps_done v (done v k)) w));
        counted = omega (
          arith,
          checked_next_lem g.topology_revision r.resulting_revision c.resulting,
          ap length c.log,
          length-append g.mutation_log (r ∷ []),
        );
        fits = omega (arith, checked_next_lem g.topology_revision r.resulting_revision c.resulting);
        mutations_replay =
            ap replay c.log
            ∙ (replay_from-append g.mutation_log (r ∷ []) default
                ∙ rw h.mutations_replay (rw (replay_record-Committed expected batch g g' r e c)));
        completions_replay =
            subst (λ f. complete_all f.completion_log (forget g') ≡ ok (record g' { facts = f }))
              (sym c.same_facts)
              (complete_all-moved g.facts.completion_log (forget g) g g' h.completions_replay
                c.keeps_tasks c.keeps_done);
      }

  apply_batch-IsValid :
      (expected : Revision) (batch : MutationBatch) → IsValid (apply_batch expected batch g).1
  apply_batch-IsValid expected batch =
      go (apply_batch expected batch g) refl (apply_batch-Ensures expected batch g h.well_formed)
    where
      go :
          (r : Fallible WorkflowMutationRecord × WorkflowGraph)
          → apply_batch expected batch g ≡ r
          → BatchEnsures batch g r
          → IsValid r.1
      go (ok r, g') e c = Committed-IsValid expected batch r g' e c
      go (err x, g') e c = subst IsValid (sym c) h
      go (fault x, g') e c = absurd c

-- Every call, successful or not, keeps a graph valid.
pub perform-IsValid : (o : Operation) (g : WorkflowGraph) → IsValid g → IsValid (perform o g)
unfolding perform
perform-IsValid (complete_task id) g h = complete-IsValid g h id
perform-IsValid (mutate expected batch) g h = apply_batch-IsValid g h expected batch

run-IsValid_from : (os : List Operation) (g : WorkflowGraph) → IsValid g → IsValid (run os g)
unfolding run
run-IsValid_from [] g h = h
run-IsValid_from (o ∷ os) g h = run-IsValid_from os (perform o g) (perform-IsValid o g h)

-- After any calls on an empty workflow, successful or not and in any order: the topology is well
-- formed, with no cycle; only tasks are completed, and each only with all its dependencies; the
-- revision is the number of committed batches and fits in 64 bits; and the two logs replay.
pub run-IsValid : (os : List Operation) → IsValid (run os default)
run-IsValid os = run-IsValid_from os default default-IsValid

-- After any calls on an empty workflow, `replay_with_facts` on its mutation log and its completion
-- log gives back exactly the graph: topology, facts, revision and logs.
pub replay_with_facts-run :
    (os : List Operation)
    → replay_with_facts (run os default).mutation_log (run os default).facts.completion_log
      ≡ ok (run os default)
unfolding replay_with_facts
replay_with_facts-run os = let h = run-IsValid os in rw h.mutations_replay h.completions_replay
