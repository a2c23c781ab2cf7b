-- ===== src/Workflow/Graph/Mutation.antt =====
-- One mutation: it keeps the topology well formed, leaves facts, revision and log alone, and a
-- mutation that is rejected leaves no trace.
use mathlib.Core.WellFounded.{Acc}
use kernis.Base.{
  ◌≡◌, refl, ap, ◌∙◌, true, false, ◌||◌, ◌&&◌, arith, ==_iff, ◌==◌, if◌then◌else◌, Bool-cases, inl,
  inr, ok, err, fault,
}
use kernis.Core.{TextId, id_ord}
use kernis.BTree.Map
use kernis.BTree.Set
use kernis.BTree.Keys.{contains-keys}
use kernis.Workflow.Topology.{WorkflowTopology, Task, Edge, contains_task, dependencies, task_ids}
use kernis.Workflow.Cycle.{Search, clear, found, stuck, cycle_path}
use kernis.Workflow.Cycle.Spec.{IsClosed}
use kernis.Workflow.Cycle.Correct.{IsAcyclic, CycleEnsures, cycle_path_lem}
use kernis.Workflow.Graph.{
  WorkflowGraph, WorkflowMutation, add_task, add_dependency, Fallible, apply_mutation, check_cycle,
  is_completed, entry_set, entry_or_default, link, with_tasks, with_dependencies,
}
use kernis.Workflow.Graph.Link.{
  HasNoEmpty, contains-link, entry_set-link, link-HasNoEmpty, unlink-link,
}

pub record IsWellFormed (t : WorkflowTopology) : Type 0 where
  pub sources : (v d : TextId) → Edge t v d → contains_task t v ≡ true
  pub targets : (v d : TextId) → Edge t v d → contains_task t d ≡ true
  pub no_empty : HasNoEmpty t.dependencies
  pub acyclic : IsAcyclic t

pub contains-task_ids :
    (t : WorkflowTopology) (v : TextId) → Set.contains (task_ids t) v ≡ contains_task t v
unfolding task_ids contains_task
contains-task_ids t v = contains-keys t.tasks v

pub IsWellFormed-IsClosed : (t : WorkflowTopology) → IsWellFormed t → IsClosed t
IsWellFormed-IsClosed t h v d e = contains-task_ids t d ∙ h.targets v d e

-- What a mutation that was applied did to the graph.
pub record Applied (g g' : WorkflowGraph) : Type 0 where
  pub well_formed : IsWellFormed g'.topology
  pub same_facts : g'.facts ≡ g.facts
  pub same_revision : g'.topology_revision ≡ g.topology_revision
  pub same_log : g'.mutation_log ≡ g.mutation_log
  pub keeps_tasks :
      (v : TextId) → contains_task g.topology v ≡ true → contains_task g'.topology v ≡ true
  pub keeps_done :
      (v : TextId)
      → is_completed g.facts v ≡ true
      → dependencies g'.topology v ≡ dependencies g.topology v

abbrev pub MutationEnsures : WorkflowGraph → Fallible (Unit {0}) × WorkflowGraph → Type 0
MutationEnsures g (ok _, g') = Applied g g'
MutationEnsures g (err _, g') = g' ≡ g
MutationEnsures g (fault _, g') = ⊥

add_task-Applied :
    (g : WorkflowGraph) (x : Task)
    → IsWellFormed g.topology
    → contains_task g.topology x.id ≡ false
    → Applied g (with_tasks g (Map.insert g.topology.tasks x.id x))
unfolding contains_task dependencies
add_task-Applied g x h e =
    let keeps = λ (v : TextId). Map.get-insert g.topology.tasks x.id x v in
    record {
      well_formed = record {
        sources = λ v d k. ground (arith, keeps v, h.sources v d);
        targets = λ v d k. ground (arith, keeps d, h.targets v d);
        no_empty = h.no_empty;
        acyclic =
            λ v c. Acc.intro v (λ d k. h.acyclic d (IsWellFormed-IsClosed g.topology h v d k));
      };
      same_facts = refl;
      same_revision = refl;
      same_log = refl;
      keeps_tasks = λ v k. ground (arith, keeps v);
      keeps_done = λ v k. refl;
    }

dependencies-link :
    (g : WorkflowGraph) (id d v : TextId)
    → dependencies (with_dependencies g (link g.topology.dependencies id d)).topology v
      ≡ (if id == v then Set.insert (dependencies g.topology id) d else dependencies g.topology v)
unfolding dependencies entry_set
dependencies-link g id d v = entry_set-link g.topology.dependencies id d v

pub Edge-link :
    (g : WorkflowGraph) (id d v e : TextId)
    → Set.contains
        (dependencies (with_dependencies g (link g.topology.dependencies id d)).topology v)
        e
      ≡ (id == v && d == e || Set.contains (dependencies g.topology v) e)
unfolding dependencies entry_set
Edge-link g id d v e = contains-link g.topology.dependencies id d v e

module _ (g : WorkflowGraph) (id d : TextId) (h : IsWellFormed g.topology)
    (source : contains_task g.topology id ≡ true) (target : contains_task g.topology d ≡ true) where
  abbrev linked : WorkflowGraph
  linked = with_dependencies g (link g.topology.dependencies id d)

  linked-sources :
      (v e : TextId) → Edge linked.topology v e → contains_task linked.topology v ≡ true
  unfolding contains_task
  linked-sources v e k = ground (arith, Edge-link g id d v e, h.sources v e, ==_iff id v)

  linked-targets :
      (v e : TextId) → Edge linked.topology v e → contains_task linked.topology e ≡ true
  unfolding contains_task
  linked-targets v e k = ground (arith, Edge-link g id d v e, h.targets v e, ==_iff d e)

  linked-IsClosed : IsClosed linked.topology
  linked-IsClosed v e k = contains-task_ids linked.topology e ∙ linked-targets v e k

  linked-Applied : is_completed g.facts id ≡ false → IsAcyclic linked.topology → Applied g linked
  unfolding contains_task
  linked-Applied fresh acyclic = record {
    well_formed = record {
      sources = linked-sources;
      targets = linked-targets;
      no_empty = link-HasNoEmpty g.topology.dependencies id d h.no_empty;
      acyclic = acyclic;
    };
    same_facts = refl;
    same_revision = refl;
    same_log = refl;
    keeps_tasks = λ v k. k;
    keeps_done = λ v k. ground (arith, dependencies-link g id d v, ==_iff id v);
  }

  -- A cycle takes the new edge out again.
  check_cycle-Ensures :
      is_completed g.facts id ≡ false
      → Set.contains (entry_set g.topology.dependencies id) d ≡ false
      → MutationEnsures g (check_cycle id d linked)
  unfolding check_cycle
  check_cycle-Ensures fresh new =
      go (cycle_path linked.topology) refl (cycle_path_lem linked.topology linked-IsClosed)
    where
      go :
          (r : Search)
          → cycle_path linked.topology ≡ r
          → CycleEnsures linked.topology r
          → MutationEnsures g (check_cycle id d linked)
      go (clear m s) e c = rw (e, check_cycle) (linked-Applied fresh c)
      go (found p) e c =
          rw (e, check_cycle)
            (ap (with_dependencies g) (unlink-link g.topology.dependencies id d h.no_empty new))
      go (stuck x) e c = absurd c

-- With the edge in, the dependency's set is not `default()`.
entry_or_default-old :
    (g : WorkflowGraph) (id d : TextId)
    → Set.contains (entry_set g.topology.dependencies id) d ≡ true
    → with_dependencies g (entry_or_default g.topology.dependencies id) ≡ g
unfolding entry_set entry_or_default Set.contains
entry_or_default-old g id d h = ground arith

-- A mutation of a well-formed graph never panics. If it is applied, the topology stays well formed,
-- the facts, the revision and the log stay as they are, no task is lost and no completed task gets
-- another dependency. If it is rejected, the graph is the one before: the edge that closed a cycle
-- has been taken out.
pub apply_mutation-Ensures :
    (m : WorkflowMutation) (g : WorkflowGraph)
    → IsWellFormed g.topology
    → MutationEnsures g (apply_mutation m g)
unfolding apply_mutation
apply_mutation-Ensures (add_task x) g h = elim (Bool-cases (contains_task g.topology x.id)) [
  | inl e ↦ rw e refl
  | inr e ↦ rw e (add_task-Applied g x h e)
]
apply_mutation-Ensures (add_dependency id d) g h = elim (Bool-cases (contains_task g.topology id)) [
  | inr source ↦ rw source refl
  | inl source ↦ elim (Bool-cases (contains_task g.topology d)) [
    | inr target ↦ rw (source, target) refl
    | inl target ↦ elim (Bool-cases (is_completed g.facts id)) [
      | inl done ↦ rw (source, target, done) refl
      | inr fresh ↦ elim (Bool-cases (Set.contains (entry_set g.topology.dependencies id) d)) [
        | inl old ↦ rw (source, target, fresh, old) (entry_or_default-old g id d old)
        | inr new ↦
            rw (source, target, fresh, new) (check_cycle-Ensures g id d h source target fresh new)
      ]
    ]
  ]
]
