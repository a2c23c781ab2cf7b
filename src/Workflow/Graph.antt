-- ===== src/Workflow/Graph.antt =====
-- `WorkflowGraph`: topology, execution facts and revision, and the operations on them. An operation
-- on `&mut self` returns its result and the graph that it leaves.
pub mod Link
pub mod Mutation
pub mod Changes
pub mod Batch
pub mod Facts
use kernis.Base.{
  ℕ, Bool, true, false, not, ◌&&◌, Option, none, some, List, [], ◌∷◌, ◌++◌, map, if◌then◌else◌,
  Outcome, ok, err, fault, ◌>>=◌, ◌=ℕ◌,
}
use kernis.Core.{TextId, id_ord, Revision, zero_revision, checked_next}
use kernis.BTree.Map
use kernis.BTree.Set
use kernis.BTree.Map.{Map}
use kernis.Workflow.Topology.{Task, WorkflowTopology}
use kernis.Workflow.Topology
use kernis.Workflow.Cycle.{cycle_path, clear, found, stuck}

pub record CompletionRecord : Type 0 where
  pub task_id : TextId

pub record ExecutionFacts : Type 0 where
  pub completed : List TextId
  pub completion_log : List CompletionRecord

pub data WorkflowMutation : Type 0 where
  add_task : Task → WorkflowMutation
  -- the task, and the dependency that it will wait for
  add_dependency : TextId → TextId → WorkflowMutation

-- `MutationBatch`, which wraps the vector of its mutations.
abbrev pub MutationBatch : Type 0
MutationBatch = List WorkflowMutation

pub record WorkflowMutationRecord : Type 0 where
  pub base_revision : Revision
  pub resulting_revision : Revision
  pub mutations : List WorkflowMutation

pub record WorkflowGraph : Type 0 where
  pub topology : WorkflowTopology
  pub facts : ExecutionFacts
  pub topology_revision : Revision
  pub mutation_log : List WorkflowMutationRecord

pub data WorkflowGraphError : Type 0 where
  unknown_task duplicate_task : TextId → WorkflowGraphError
  -- the task, and the dependency
  duplicate_dependency : TextId → TextId → WorkflowGraphError
  cycle : List TextId → WorkflowGraphError
  completed_task_mutation task_already_completed : TextId → WorkflowGraphError
  -- the task, and the dependency
  incomplete_prerequisite : TextId → TextId → WorkflowGraphError
  -- expected, and actual
  revision_conflict : Revision → Revision → WorkflowGraphError
  empty_mutation_batch : WorkflowGraphError
  revision_exhausted : Revision → WorkflowGraphError
  -- expected, and actual
  replay_revision_mismatch : Revision → Revision → WorkflowGraphError

abbrev pub Fallible : Type 0 → Type 0
Fallible A = Outcome WorkflowGraphError A

-- `WorkflowTopology::default()`
abbrev pub default_topology : WorkflowTopology
default_topology = record { tasks = []; dependencies = [] }

-- `ExecutionFacts::default()`
abbrev pub default_facts : ExecutionFacts
default_facts = record { completed = []; completion_log = [] }

-- `WorkflowGraph::default()`
abbrev pub default : WorkflowGraph
default = record {
  topology = default_topology;
  facts = default_facts;
  topology_revision = zero_revision;
  mutation_log = [];
}

-- `ExecutionFacts::is_completed`
unfoldable pub is_completed : ExecutionFacts → TextId → Bool
is_completed f id = Set.contains f.completed id

-- The loop of `complete`: the first dependency that is not completed.
unfoldable pub first_incomplete : ExecutionFacts → List TextId → Option TextId
unfolding is_completed
first_incomplete f [] = none
first_incomplete f (d ∷ ds) = if is_completed f d then first_incomplete f ds else some d

-- `self.facts.completed.insert` and the push to the log.
abbrev pub record_completion : TextId → WorkflowGraph → WorkflowGraph
record_completion id g = record g {
  facts = record {
    completed = Set.insert g.facts.completed id;
    completion_log = g.facts.completion_log ++ record { task_id = id } ∷ [];
  };
}

unfoldable pub complete : TextId → WorkflowGraph → Fallible CompletionRecord × WorkflowGraph
unfolding is_completed first_incomplete
complete id g =
    if not (Topology.contains_task g.topology id)
    then (err (unknown_task id), g)
    else if is_completed g.facts id
    then (err (task_already_completed id), g)
    else elim (first_incomplete g.facts (Topology.dependencies g.topology id)) [
      | some d ↦ (err (incomplete_prerequisite id d), g)
      | none ↦ (ok (record { task_id = id }), record_completion id g)
    ]

-- `dependencies.iter().all(|dependency| self.facts.is_completed(dependency))`
unfoldable pub all_completed : ExecutionFacts → List TextId → Bool
unfolding is_completed
all_completed f [] = true
all_completed f (d ∷ ds) = is_completed f d && all_completed f ds

-- The two filters of `ready_tasks`.
unfoldable pub is_ready : WorkflowGraph → TextId → Bool
unfolding is_completed all_completed
is_ready g id = not (is_completed g.facts id) && elim (Map.get g.topology.dependencies id) [
  | none ↦ true
  | some ds ↦ all_completed g.facts ds
]

unfoldable pub filter_ready : WorkflowGraph → List TextId → List TextId
unfolding is_ready
filter_ready g [] = []
filter_ready g (id ∷ ids) =
    let rest = filter_ready g ids in if is_ready g id then id ∷ rest else rest

unfoldable pub ready_tasks : WorkflowGraph → List TextId
unfolding filter_ready
ready_tasks g = filter_ready g (Map.keys g.topology.tasks)

abbrev pub with_tasks : WorkflowGraph → Map TextId Task → WorkflowGraph
with_tasks g m = record g { topology = record g.topology { tasks = m } }

abbrev pub with_dependencies : WorkflowGraph → Map TextId (List TextId) → WorkflowGraph
with_dependencies g m = record g { topology = record g.topology { dependencies = m } }

-- `self.topology.dependencies.entry(task_id).or_default()`
unfoldable pub entry_or_default : Map TextId (List TextId) → TextId → Map TextId (List TextId)
entry_or_default m id = if Map.contains_key m id then m else Map.insert m id []

-- The set that the entry holds.
unfoldable pub entry_set : Map TextId (List TextId) → TextId → List TextId
entry_set m id = elim (Map.get m id) [ none ↦ [] | some ds ↦ ds ]

-- The map after the dependency was inserted into the entry's set.
unfoldable pub link : Map TextId (List TextId) → TextId → TextId → Map TextId (List TextId)
unfolding entry_or_default
link m id d = Map.update (entry_or_default m id) id (λ ds. Set.insert ds d)

-- The removal of a dependency that closed a cycle, and of its set if that is left empty.
unfoldable pub unlink : Map TextId (List TextId) → TextId → TextId → Map TextId (List TextId)
unfolding entry_set
unlink m id d =
    let m' = Map.update m id (λ ds. Set.remove ds d) in
    elim (entry_set m' id) [ [] ↦ Map.remove m' id | _ ∷ _ ↦ m' ]

-- The end of the arm for `AddDependency`, with the dependency inserted.
unfoldable pub check_cycle : TextId → TextId → WorkflowGraph → Fallible (Unit {0}) × WorkflowGraph
unfolding unlink
check_cycle id d g = elim (cycle_path g.topology) [
  | clear _ _ ↦ (ok tt, g)
  | found path ↦ (err (cycle path), with_dependencies g (unlink g.topology.dependencies id d))
  | stuck x ↦ (fault x, g)
]

unfoldable pub apply_mutation :
    WorkflowMutation → WorkflowGraph → Fallible (Unit {0}) × WorkflowGraph
unfolding entry_set entry_or_default link check_cycle is_completed
apply_mutation (add_task task) g =
    if Topology.contains_task g.topology task.id
    then (err (duplicate_task task.id), g)
    else (ok tt, with_tasks g (Map.insert g.topology.tasks task.id task))
apply_mutation (add_dependency id d) g =
    if not (Topology.contains_task g.topology id)
    then (err (unknown_task id), g)
    else if not (Topology.contains_task g.topology d)
    then (err (unknown_task d), g)
    else if is_completed g.facts id
    then (err (completed_task_mutation id), g)
    else if Set.contains (entry_set g.topology.dependencies id) d
    then (
      err (duplicate_dependency id d),
      with_dependencies g (entry_or_default g.topology.dependencies id),
    )
    else check_cycle id d (with_dependencies g (link g.topology.dependencies id d))

-- The loop over the batch, on the candidate.
unfoldable pub apply_mutations : List WorkflowMutation → WorkflowGraph → Fallible WorkflowGraph
unfolding apply_mutation
apply_mutations [] g = ok g
apply_mutations (m ∷ ms) g = let (r, g') = apply_mutation m g in r >>= λ _. apply_mutations ms g'

-- What `apply_batch` does with the candidate.
unfoldable pub commit :
    WorkflowGraph
    → Revision
    → MutationBatch
    → WorkflowGraph
    → Fallible (WorkflowMutationRecord × WorkflowGraph)
commit g resulting_revision batch candidate = elim (cycle_path candidate.topology) [
  | found path ↦ err (cycle path)
  | stuck x ↦ fault x
  | clear _ _ ↦
      let r : WorkflowMutationRecord = record {
        base_revision = g.topology_revision;
        resulting_revision = resulting_revision;
        mutations = batch;
      } in
      ok (
        r,
        record candidate {
          topology_revision = resulting_revision;
          mutation_log = candidate.mutation_log ++ r ∷ [];
        },
      )
]

-- `apply_batch` up to the commit: the record and the candidate, or why the batch is rejected.
unfoldable pub prepare_batch :
    Revision → MutationBatch → WorkflowGraph → Fallible (WorkflowMutationRecord × WorkflowGraph)
unfolding apply_mutations commit
prepare_batch expected [] g =
    if expected =ℕ g.topology_revision
    then err empty_mutation_batch
    else err (revision_conflict expected g.topology_revision)
prepare_batch expected (m ∷ ms) g =
    if expected =ℕ g.topology_revision
    then elim (checked_next g.topology_revision) [
      | none ↦ err (revision_exhausted g.topology_revision)
      | some resulting ↦ apply_mutations (m ∷ ms) g >>= commit g resulting (m ∷ ms)
    ]
    else err (revision_conflict expected g.topology_revision)

-- `*self = candidate` stands behind every `?`, so an error leaves the graph as it was.
unfoldable pub apply_batch :
    Revision → MutationBatch → WorkflowGraph → Fallible WorkflowMutationRecord × WorkflowGraph
unfolding prepare_batch
apply_batch expected batch g = elim (prepare_batch expected batch g) [
  | ok (r, candidate) ↦ (ok r, candidate)
  | err e ↦ (err e, g)
  | fault x ↦ (fault x, g)
]
