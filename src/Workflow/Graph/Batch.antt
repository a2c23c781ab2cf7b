-- ===== src/Workflow/Graph/Batch.antt =====
-- A batch: it is committed as a whole or leaves the graph as it was, and the last search for a
-- cycle finds none.
use kernis.Base.{
  ◌≡◌, refl, ap, ◌∙◌, true, some, List, [], ◌∷◌, ◌++◌, Bool-cases, Option-cases, inl, inr, ◌>>=◌,
  ◌=ℕ◌, ok, err, fault,
}
use kernis.Core.{TextId, id_ord, Revision, checked_next}
use kernis.Workflow.Topology.{contains_task, dependencies}
use kernis.Workflow.Cycle.Correct.{cycle_path-clear}
use kernis.Workflow.Graph.{
  WorkflowGraph, WorkflowMutation, WorkflowMutationRecord, MutationBatch, Fallible, apply_mutation,
  apply_mutations, commit, prepare_batch, apply_batch, is_completed,
}
use kernis.Workflow.Graph.Changes.{Changes, apply_mutations-Changes}
use kernis.Workflow.Graph.Mutation.{
  IsWellFormed, IsWellFormed-IsClosed, Applied, MutationEnsures, apply_mutation-Ensures,
}

pub Applied-refl : (g : WorkflowGraph) → IsWellFormed g.topology → Applied g g
Applied-refl g h = record {
  well_formed = h;
  same_facts = refl;
  same_revision = refl;
  same_log = refl;
  keeps_tasks = λ v k. k;
  keeps_done = λ v k. refl;
}

pub Applied-trans : (g g' g'' : WorkflowGraph) → Applied g g' → Applied g' g'' → Applied g g''
Applied-trans g g' g'' h k = record {
  well_formed = k.well_formed;
  same_facts = k.same_facts ∙ h.same_facts;
  same_revision = k.same_revision ∙ h.same_revision;
  same_log = k.same_log ∙ h.same_log;
  keeps_tasks = λ v c. k.keeps_tasks v (h.keeps_tasks v c);
  keeps_done =
      λ v c. k.keeps_done v (ap (λ f. is_completed f v) h.same_facts ∙ c) ∙ h.keeps_done v c;
}

abbrev pub MutationsEnsures : WorkflowGraph → Fallible WorkflowGraph → Type 0
MutationsEnsures g (ok g') = Applied g g'
MutationsEnsures g (err _) = Unit
MutationsEnsures g (fault _) = ⊥

MutationsEnsures-trans :
    (g g' : WorkflowGraph) (r : Fallible WorkflowGraph)
    → Applied g g'
    → MutationsEnsures g' r
    → MutationsEnsures g r
MutationsEnsures-trans g g' (ok g'') h k = Applied-trans g g' g'' h k
MutationsEnsures-trans g g' (err _) h k = tt
MutationsEnsures-trans g g' (fault _) h k = k

pub apply_mutations-Ensures :
    (ms : List WorkflowMutation) (g : WorkflowGraph)
    → IsWellFormed g.topology
    → MutationsEnsures g (apply_mutations ms g)
unfolding apply_mutations
apply_mutations-Ensures [] g h = Applied-refl g h
apply_mutations-Ensures (m ∷ ms) g h =
    go (apply_mutation m g) refl (apply_mutation-Ensures m g h) (apply_mutations-Ensures ms)
  where
    go :
        (r : Fallible (Unit {0}) × WorkflowGraph)
        → apply_mutation m g ≡ r
        → MutationEnsures g r
        → ((g' : WorkflowGraph)
            → IsWellFormed g'.topology
            → MutationsEnsures g' (apply_mutations ms g'))
        → MutationsEnsures g (apply_mutations (m ∷ ms) g)
    go (ok _, g') e a rest =
        rw e (MutationsEnsures-trans g g' (apply_mutations ms g') a (rest g' a.well_formed))
    go (err _, g') e a rest = rw e tt
    go (fault _, g') e a rest = absurd a

-- What a committed batch did.
pub record Committed (batch : MutationBatch) (g : WorkflowGraph) (r : WorkflowMutationRecord)
    (g' : WorkflowGraph) : Type 0 where
  pub base : r.base_revision ≡ g.topology_revision
  pub resulting : checked_next g.topology_revision ≡ some r.resulting_revision
  pub mutations : r.mutations ≡ batch
  pub revision : g'.topology_revision ≡ r.resulting_revision
  pub log : g'.mutation_log ≡ g.mutation_log ++ r ∷ []
  pub same_facts : g'.facts ≡ g.facts
  -- Every mutation of the batch is in the topology, and nothing else is new.
  pub changes : Changes batch g g'
  pub well_formed : IsWellFormed g'.topology
  pub keeps_tasks :
      (v : TextId) → contains_task g.topology v ≡ true → contains_task g'.topology v ≡ true
  pub keeps_done :
      (v : TextId)
      → is_completed g.facts v ≡ true
      → dependencies g'.topology v ≡ dependencies g.topology v

abbrev pub PrepareEnsures :
    MutationBatch → WorkflowGraph → Fallible (WorkflowMutationRecord × WorkflowGraph) → Type 0
PrepareEnsures batch g (ok (r, g')) = Committed batch g r g'
PrepareEnsures batch g (err _) = Unit
PrepareEnsures batch g (fault _) = ⊥

commit-Committed :
    (g : WorkflowGraph) (n : Revision) (batch : MutationBatch) (c : WorkflowGraph)
    → checked_next g.topology_revision ≡ some n
    → Applied g c
    → Changes batch g c
    → PrepareEnsures batch g (commit g n batch c)
unfolding commit
commit-Committed g n batch c next a changes =
    let (m, s, e) =
      cycle_path-clear c.topology (IsWellFormed-IsClosed c.topology a.well_formed)
        a.well_formed.acyclic in
    rw (e, commit)
      (record {
        base = refl;
        resulting = next;
        mutations = refl;
        revision = refl;
        log = (rw a.same_log);
        same_facts = a.same_facts;
        changes = record { tasks = changes.tasks; edges = changes.edges };
        well_formed = a.well_formed;
        keeps_tasks = a.keeps_tasks;
        keeps_done = a.keeps_done;
      })

commit-Ensures :
    (g : WorkflowGraph) (n : Revision) (batch : MutationBatch)
    → checked_next g.topology_revision ≡ some n
    → (r : Fallible WorkflowGraph) → apply_mutations batch g ≡ r
    → MutationsEnsures g r
    → PrepareEnsures batch g (r >>= commit g n batch)
commit-Ensures g n batch next (ok c) e a =
    commit-Committed g n batch c next a (apply_mutations-Changes batch g c e)
commit-Ensures g n batch next (err _) e a = tt
commit-Ensures g n batch next (fault _) e a = a

prepare_batch-Ensures :
    (expected : Revision) (batch : MutationBatch) (g : WorkflowGraph)
    → IsWellFormed g.topology
    → PrepareEnsures batch g (prepare_batch expected batch g)
unfolding prepare_batch
prepare_batch-Ensures expected [] g h = elim (Bool-cases (expected =ℕ g.topology_revision)) [
  | inl e ↦ rw e tt
  | inr e ↦ rw e tt
]
prepare_batch-Ensures expected (m ∷ ms) g h = elim (Bool-cases (expected =ℕ g.topology_revision)) [
  | inr e ↦ rw e tt
  | inl e ↦ elim (Option-cases (checked_next g.topology_revision)) [
    | inl last ↦ rw (e, last) tt
    | inr (n, next) ↦
        rw (e, next)
          (commit-Ensures g n (m ∷ ms) next _ refl (apply_mutations-Ensures (m ∷ ms) g h))
  ]
]

-- What `apply_batch` promises: a record and the committed graph, or the graph as it was.
abbrev pub BatchEnsures :
    MutationBatch → WorkflowGraph → Fallible WorkflowMutationRecord × WorkflowGraph → Type 0
BatchEnsures batch g (ok r, g') = Committed batch g r g'
BatchEnsures batch g (err _, g') = g' ≡ g
BatchEnsures batch g (fault _, g') = ⊥

-- On a well-formed graph `apply_batch` returns without a panic. An error leaves the graph as it
-- was, also where some mutations of the batch had been applied to the candidate. A success gives a
-- record of the batch with the old revision and the next one, sets that revision, adds the record
-- to the log, and leaves the facts alone; the topology has what it had, every task and every
-- dependency that the batch adds, and nothing else; it stays well formed, no task is lost and no
-- completed task gets another dependency.
pub apply_batch-Ensures :
    (expected : Revision) (batch : MutationBatch) (g : WorkflowGraph)
    → IsWellFormed g.topology
    → BatchEnsures batch g (apply_batch expected batch g)
unfolding apply_batch
apply_batch-Ensures expected batch g h =
    go (prepare_batch expected batch g) refl (prepare_batch-Ensures expected batch g h)
  where
    go :
        (r : Fallible (WorkflowMutationRecord × WorkflowGraph))
        → prepare_batch expected batch g ≡ r
        → PrepareEnsures batch g r
        → BatchEnsures batch g (apply_batch expected batch g)
    go (ok (r, c)) e p = rw (e, apply_batch) p
    go (err _) e p = rw (e, apply_batch) refl
    go (fault _) e p = absurd p
