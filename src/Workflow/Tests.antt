-- ===== src/Workflow/Tests.antt =====
-- Runs of the workflow model on small inputs, and the theorems at them.
use kernis.Base.{◌≡◌, refl, ◌⊎◌, ◌↔◌, true, List, [], ◌∷◌, ok, err}
use kernis.Core.{TextId, id, id_ord, checked_next}
use kernis.BTree.Map
use kernis.BTree.Set
use kernis.Workflow.Topology
use kernis.Workflow.Topology.{WorkflowTopology, Edge}
use kernis.Workflow.Cycle.{Marks, cycle_path, clear, found}
use kernis.Dfs.Path.{IsCycle}
use kernis.Workflow.Cycle.Correct.{cycle_path_decides}
use kernis.Workflow.Graph.{
  WorkflowMutation, add_task, add_dependency, default, apply_batch, apply_mutation, complete,
  ready_tasks, WorkflowGraph, cycle, incomplete_prerequisite,
}
use kernis.Workflow.Graph.Mutation.{MutationEnsures, apply_mutation-Ensures, IsWellFormed-IsClosed}
use kernis.Workflow.Graph.Batch.{BatchEnsures, apply_batch-Ensures}
use kernis.Workflow.Graph.Facts.{
  CompleteEnsures, complete-Ensures, IsEnabled, ready_tasks_iff, ready_tasks_progress,
}
use kernis.Workflow.Replay.{Operation, complete_task, mutate, run, replay_with_facts}
use kernis.Workflow.Replay.RoundTrip.{IsValid, run-IsValid, replay_with_facts-run}

abbrev new_task : TextId → WorkflowMutation
new_task i = add_task (record { id = i; label = [] })

-- `plan_research_execute` of the source's tests, a rejected batch, and a completion.
abbrev calls : List Operation
calls =
    mutate 0 (
      new_task (id "plan")
      ∷ new_task (id "research")
      ∷ new_task (id "execute")
      ∷ add_dependency (id "research") (id "plan")
      ∷ add_dependency (id "execute") (id "research")
      ∷ [])
    ∷ mutate 0 (new_task (id "late") ∷ [])
    ∷ complete_task (id "plan")
    ∷ complete_task (id "execute")
    ∷ []

abbrev planned : WorkflowGraph
planned = run calls default

abbrev closing : List WorkflowMutation
closing = new_task (id "other") ∷ add_dependency (id "research") (id "execute") ∷ []

-- All that a run computes with.
runs : Unit {0}
unfolding run complete apply_batch cycle_path id_ord checked_next ready_tasks Topology.contains_task
    Topology.dependencies Topology.task_ids Map.insert Map.get Map.update Map.remove Set.insert
    Set.contains Set.remove
runs = tt

planned-revision : planned.topology_revision ≡ 1
unfolding runs
planned-revision = refl

planned-ready : ready_tasks planned ≡ id "research" ∷ []
unfolding runs
planned-ready = refl

planned-incomplete :
    (complete (id "execute") planned).0
    ≡ err (incomplete_prerequisite (id "execute") (id "research"))
unfolding runs
planned-incomplete = refl

closing-cycle :
    (apply_batch 1 closing planned).0
    ≡ err (cycle (id "execute" ∷ id "research" ∷ id "execute" ∷ []))
unfolding runs
closing-cycle = refl

replay_with_facts-run_example :
    replay_with_facts (run calls default).mutation_log (run calls default).facts.completion_log
    ≡ ok (run calls default)
replay_with_facts-run_example = replay_with_facts-run calls

run-IsValid_example : IsValid (run calls default)
run-IsValid_example = run-IsValid calls

cycle_path_decides_example :
    ((p : List TextId) × (cycle_path planned.topology ≡ found p)
      × IsCycle (Edge planned.topology) p)
    ⊎ ((m : Marks) × (s : List TextId) × (cycle_path planned.topology ≡ clear m s)
        × ((p : List TextId) → ¬ IsCycle (Edge planned.topology) p))
cycle_path_decides_example =
    cycle_path_decides planned.topology
      (IsWellFormed-IsClosed planned.topology (run-IsValid calls).well_formed)

apply_batch-Ensures_example : BatchEnsures closing planned (apply_batch 1 closing planned)
apply_batch-Ensures_example = apply_batch-Ensures 1 closing planned (run-IsValid calls).well_formed

apply_mutation-Ensures_example :
    MutationEnsures planned (apply_mutation (add_dependency (id "research") (id "execute")) planned)
apply_mutation-Ensures_example =
    apply_mutation-Ensures (add_dependency (id "research") (id "execute")) planned
      (run-IsValid calls).well_formed

complete-Ensures_example : CompleteEnsures (id "execute") planned (complete (id "execute") planned)
complete-Ensures_example = complete-Ensures (id "execute") planned

ready_tasks_iff_example :
    (Set.contains (ready_tasks planned) (id "research") ≡ true) ↔ IsEnabled planned (id "research")
ready_tasks_iff_example = ready_tasks_iff planned (id "research")

ready_tasks_progress_example : (u : TextId) × (Set.contains (ready_tasks planned) u ≡ true)
unfolding runs
ready_tasks_progress_example =
    ready_tasks_progress planned (id "execute") (run-IsValid calls).well_formed refl refl
