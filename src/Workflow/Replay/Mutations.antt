-- ===== src/Workflow/Replay/Mutations.antt =====
-- The replay of a mutation log: without facts, a batch that was committed is committed again.
use mathlib.Core.Path.{ap₂}
use kernis.Base.{
  ◌≡◌, refl, sym, ◌∙◌, List, [], ◌∷◌, ◌++◌, arith, Bool-cases, Option-cases, inl, inr, ok, ◌>>=◌,
  bind_assoc, >>=-eq-ok, ◌=ℕ◌,
}
use kernis.Core.{id_ord, Revision, checked_next}
use kernis.BTree.Set
use kernis.Workflow.Graph.{
  WorkflowGraph, WorkflowMutation, add_task, add_dependency, WorkflowMutationRecord, MutationBatch,
  is_completed, default_facts, apply_mutation, check_cycle, apply_mutations, commit, prepare_batch,
  apply_batch,
}
use kernis.Workflow.Graph.Batch.{Committed}
use kernis.Workflow.Replay.{replay_record, replay_from}

-- The graph with no facts.
abbrev pub forget : WorkflowGraph → WorkflowGraph
forget g = record g { facts = default_facts }

apply_mutation-forget :
    (m : WorkflowMutation) (g g₁ : WorkflowGraph)
    → apply_mutation m g ≡ (ok tt, g₁)
    → apply_mutation m (forget g) ≡ (ok tt, forget g₁)
unfolding apply_mutation check_cycle is_completed Set.contains
apply_mutation-forget (add_task x) g g₁ e = ground arith
apply_mutation-forget (add_dependency id d) g g₁ e = ground arith

apply_mutations-forget :
    (ms : List WorkflowMutation) (g c : WorkflowGraph)
    → apply_mutations ms g ≡ ok c
    → apply_mutations ms (forget g) ≡ ok (forget c)
unfolding apply_mutations
apply_mutations-forget [] g c e = ground arith
apply_mutations-forget (m ∷ ms) g c e =
    let (r, done, rest) =
      >>=-eq-ok (apply_mutation m g).0 (λ _. apply_mutations ms (apply_mutation m g).1) e in
    let moved = apply_mutation-forget m g (apply_mutation m g).1 (ground arith) in
    rw moved (apply_mutations-forget ms (apply_mutation m g).1 c rest)

commit-forget :
    (g c g' : WorkflowGraph) (n : Revision) (batch : MutationBatch) (r : WorkflowMutationRecord)
    → commit g n batch c ≡ ok (r, g')
    → commit (forget g) n batch (forget c) ≡ ok (r, forget g')
unfolding commit
commit-forget g c g' n batch r e = ground arith

prepare_batch-forget :
    (expected : Revision) (batch : MutationBatch) (g g' : WorkflowGraph)
    (r : WorkflowMutationRecord)
    → prepare_batch expected batch g ≡ ok (r, g')
    → prepare_batch expected batch (forget g) ≡ ok (r, forget g')
unfolding prepare_batch
prepare_batch-forget expected [] g g' r e = ground arith
prepare_batch-forget expected (m ∷ ms) g g' r e =
    elim (Bool-cases (expected =ℕ g.topology_revision)) [
      | inr no_match ↦ ground arith
      | inl same ↦ elim (Option-cases (checked_next g.topology_revision)) [
        | inl last ↦ ground arith
        | inr (n, next) ↦
            let (c, applied, committed) =
              >>=-eq-ok (apply_mutations (m ∷ ms) g) (commit g n (m ∷ ms)) (rw (same, next) at e) in
            rw (same, next, apply_mutations-forget (m ∷ ms) g c applied)
              (commit-forget g c g' n (m ∷ ms) r committed)
      ]
    ]

pub apply_batch-forget :
    (expected : Revision) (batch : MutationBatch) (g g' : WorkflowGraph)
    (r : WorkflowMutationRecord)
    → apply_batch expected batch g ≡ (ok r, g')
    → apply_batch expected batch (forget g) ≡ (ok r, forget g')
unfolding apply_batch
apply_batch-forget expected batch g g' r e =
    ground (arith, prepare_batch-forget expected batch g g' r)

apply_batch-revision :
    (expected : Revision) (batch : MutationBatch) (g g' : WorkflowGraph)
    (r : WorkflowMutationRecord)
    → apply_batch expected batch g ≡ (ok r, g')
    → expected ≡ g.topology_revision
unfolding apply_batch prepare_batch
apply_batch-revision expected [] g g' r e = ground arith
apply_batch-revision expected (m ∷ ms) g g' r e = ground arith

-- The record of a committed batch replays on the graph without its facts.
pub replay_record-Committed :
    (expected : Revision) (batch : MutationBatch) (g g' : WorkflowGraph)
    (r : WorkflowMutationRecord)
    → apply_batch expected batch g ≡ (ok r, g')
    → Committed batch g r g'
    → replay_record r (forget g) ≡ ok (forget g')
unfolding replay_record
replay_record-Committed expected batch g g' r e c =
    let same = apply_batch-revision expected batch g g' r e in
    let again : apply_batch r.base_revision r.mutations (forget g) ≡ (ok r, forget g') =
      ap₂ (λ a b. apply_batch a b (forget g)) (c.base ∙ sym same) c.mutations
      ∙ apply_batch-forget expected batch g g' r e in
    ground (arith, c.base, c.resulting)

pub replay_from-append :
    (rs qs : List WorkflowMutationRecord) (g : WorkflowGraph)
    → replay_from g (rs ++ qs) ≡ (replay_from g rs >>= λ g'. replay_from g' qs)
unfolding replay_from
replay_from-append [] qs g = refl
replay_from-append (r ∷ rs) qs g = simp (replay_from-append rs qs, bind_assoc)
