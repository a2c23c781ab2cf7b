-- ===== src/Runtime/Accepted.antt =====
-- The workflow of a definition: a batch on a new graph, and when it is accepted.
use mathlib.Core.List.{flat_map}
use kernis.Base.{
  ◌≡◌, refl, ap, ◌∙◌, subst, true, false, ◌||◌, ◌&&◌, some, List, [], ◌∷◌, ◌++◌, map, arith,
  Bool-cases, Option-cases, inl, inr, ==_iff, ◌==◌, ok, err, fault, ◌>>=◌,
}
use kernis.Core
use kernis.Core.{TextId, id_ord}
use kernis.BTree.Map
use kernis.BTree.Set
use kernis.Dfs.Path.{IsCycle, Grounded-no_cycle}
use kernis.Workflow.Topology.{Edge, contains_task, dependencies}
use kernis.Workflow.Cycle.{Marks, clear, cycle_path}
use kernis.Workflow.Cycle.Correct.{cycle_path-clear, IsAcyclic-no_cycle}
use kernis.Workflow.Graph
use kernis.Workflow.Graph.{
  WorkflowGraph, WorkflowMutation, WorkflowMutationRecord, add_task, add_dependency,
  apply_mutations, apply_batch, prepare_batch, commit, is_completed,
}
use kernis.Workflow.Graph.Mutation.{IsWellFormed, IsWellFormed-IsClosed, Applied}
use kernis.Workflow.Graph.Changes.{links}
use kernis.Workflow.Graph.Batch.{
  Committed, BatchEnsures, apply_batch-Ensures, MutationsEnsures, apply_mutations-Ensures,
}
use kernis.Workflow.Replay.{run}
use kernis.Workflow.Replay.RoundTrip.{run-IsValid}
use kernis.Runtime.Definition.{
  TaskDefinition, Tasks, workflow, workflow_mutations, build_workflow, validate_workflow,
}
use kernis.Runtime.Validation.{Decides, Decides-map, Each, IsSoundTask}
use kernis.Runtime.Keyed.{IsKeyed, tail-IsKeyed, head-IsKeyed, Each-get}
use kernis.Runtime.Depends.{IsCycle-map}
use kernis.Runtime.Waits.{waits, Waits, add_each, link_task, link_each, adds, IsDraft, links_all}

-- `apply_batch` accepts the mutations on a new workflow.
abbrev IsBuilt : List WorkflowMutation → Type 0
IsBuilt mutations =
    (r : WorkflowMutationRecord) × ((apply_batch Graph.default.topology_revision mutations
        Graph.default).0
      ≡ ok r)

default-IsWellFormed : IsWellFormed Graph.default.topology
unfolding run
default-IsWellFormed = (run-IsValid []).well_formed

build_workflow-Decides :
    (mutations : List WorkflowMutation) → Decides (IsBuilt mutations) (build_workflow mutations)
unfolding build_workflow
build_workflow-Decides mutations = go _ refl (
    apply_batch-Ensures Graph.default.topology_revision mutations Graph.default
      default-IsWellFormed)
  where
    go :
        (r : Graph.Fallible WorkflowMutationRecord × WorkflowGraph)
        → apply_batch Graph.default.topology_revision mutations Graph.default ≡ r
        → BatchEnsures mutations Graph.default r
        → Decides
            (IsBuilt mutations)
            (elim r.0 [ ok _ ↦ ok tt | err e ↦ err (workflow e) | fault f ↦ fault f ])
    go (ok r, g) e h = (r, ap (λ p. p.0) e)
    go (err x, g) e h = λ built. cc (ap (λ p. p.0) e, built.1)
    go (fault f, g) e h = absurd h

-- A definition without tasks asks for no workflow.
abbrev IsAccepted : List WorkflowMutation → Type 0
IsAccepted [] = Unit
IsAccepted (m ∷ ms) = IsBuilt (m ∷ ms)

accepts-Decides :
    (tasks : Tasks) → Decides (IsAccepted (workflow_mutations tasks)) (validate_workflow tasks)
unfolding validate_workflow
accepts-Decides tasks = go (workflow_mutations tasks)
  where
    go :
        (mutations : List WorkflowMutation)
        → Decides
            (IsAccepted mutations)
            (elim mutations [ [] ↦ ok tt | m ∷ ms ↦ build_workflow (m ∷ ms) ])
    go [] = tt
    go (m ∷ ms) = build_workflow-Decides (m ∷ ms)

links-append :
    (xs ys : List WorkflowMutation) (v e : TextId)
    → links (xs ++ ys) v e ≡ (links xs v e || links ys v e)
links-append [] ys v e = refl
links-append (add_task x ∷ xs) ys v e = links-append xs ys v e
links-append (add_dependency id d ∷ xs) ys v e = ground (arith, links-append xs ys v e)

links-add_each : (ts : List TaskDefinition) (v e : TextId) → links (add_each ts) v e ≡ false
links-add_each [] v e = refl
links-add_each (t ∷ ts) v e = links-add_each ts v e

links-one :
    (id : TextId) (ds : List TextId) (v e : TextId)
    → links (map (λ d. add_dependency id d) ds) v e ≡ (id == v && Set.contains ds e)
unfolding Set.contains
links-one id [] v e = ground (arith, Bool-cases (id == v))
links-one id (d ∷ ds) v e = ground (arith, links-one id ds v e, Bool-cases (id == v))

-- The dependencies that the batch adds are those that the tasks declare.
links-link_each :
    (m : Tasks) (v e : TextId)
    → IsKeyed (λ t. t.id) m
    → links (link_each (Map.values m)) v e ≡ waits m v e
unfolding flat_map Map.get
links-link_each [] v e h = refl
links-link_each ((k, t) ∷ m) v e h =
    let (own, absent) = head-IsKeyed (λ t. t.id) k t m h in
    links-append (link_task t) (link_each (Map.values m)) v e
    ∙ ground (
      arith,
      links-one t.id t.dependencies v e,
      links-link_each m v e (tail-IsKeyed (λ t. t.id) k t m h),
      own,
      absent,
      ==_iff k v,
    )

links-workflow_mutations :
    (m : Tasks) (v e : TextId)
    → IsKeyed (λ t. t.id) m
    → links (workflow_mutations m) v e ≡ waits m v e
unfolding workflow_mutations
links-workflow_mutations m v e h =
    links-append (add_each (Map.values m)) (link_each (Map.values m)) v e
    ∙ ground (arith, links-add_each (Map.values m) v e, links-link_each m v e h)

-- What is built has the dependencies of the batch, and no cycle.
built-acyclic :
    (ms : List WorkflowMutation) (E : TextId → TextId → Type 0)
    → ((v d : TextId) → E v d → links ms v d ≡ true)
    → IsBuilt ms
    → (p : List TextId) → ¬ IsCycle E p
built-acyclic ms E within built p c =
    let result = apply_batch Graph.default.topology_revision ms Graph.default in
    let pair : result ≡ (ok built.0, result.1) = ap (λ r. (r, result.1)) built.1 in
    let done : Committed ms Graph.default built.0 result.1 =
      subst (BatchEnsures ms Graph.default) pair (
        apply_batch-Ensures Graph.default.topology_revision ms Graph.default
          default-IsWellFormed) in
    IsAcyclic-no_cycle result.1.topology (IsWellFormed-IsClosed result.1.topology done.well_formed)
      done.well_formed.acyclic p
      (IsCycle-map E (Edge result.1.topology)
        (λ v d e. ground (arith, done.changes.edges v d, within v d e)) p c)

accepted-acyclic :
    (tasks : Tasks)
    → IsKeyed (λ t. t.id) tasks
    → IsAccepted (workflow_mutations tasks)
    → (p : List TextId) → ¬ IsCycle (Waits tasks) p
unfolding workflow_mutations Map.get
accepted-acyclic [] h a p c = Grounded-no_cycle (Waits []) (λ v d e. cc) p c
accepted-acyclic ((k, t) ∷ m) h a p c =
    built-acyclic (workflow_mutations ((k, t) ∷ m)) (Waits ((k, t) ∷ m))
      (λ v d e. links-workflow_mutations ((k, t) ∷ m) v d h ∙ e) a p c

prepared-built :
    (ms : List WorkflowMutation) (r : WorkflowMutationRecord) (c : WorkflowGraph)
    → prepare_batch Graph.default.topology_revision ms Graph.default ≡ ok (r, c)
    → (apply_batch Graph.default.topology_revision ms Graph.default).0 ≡ ok r
unfolding apply_batch
prepared-built ms r c h = rw (h, apply_batch) refl

committed-clear :
    (ms : List WorkflowMutation) (c : WorkflowGraph) (marks : Marks) (stack : List TextId)
    → cycle_path c.topology ≡ clear marks stack
    → (r : WorkflowMutationRecord) × (g : WorkflowGraph) × (commit Graph.default 1 ms c ≡ ok (r, g))
unfolding commit
committed-clear ms c marks stack e =
    let r : WorkflowMutationRecord = record {
      base_revision = 0;
      resulting_revision = 1;
      mutations = ms;
    } in
    (
      r,
      record c { topology_revision = 1; mutation_log = c.mutation_log ++ r ∷ [] },
      rw (e, commit) refl,
    )

applied-IsAccepted :
    (ms : List WorkflowMutation) (c : WorkflowGraph)
    → apply_mutations ms Graph.default ≡ ok c
    → IsAccepted ms
unfolding prepare_batch Core.checked_next
applied-IsAccepted [] c h = tt
applied-IsAccepted (m ∷ ms) c h =
    let done : Applied Graph.default c =
      subst (MutationsEnsures Graph.default) h
        (apply_mutations-Ensures (m ∷ ms) Graph.default default-IsWellFormed) in
    let (marks, stack, e) =
      cycle_path-clear c.topology (IsWellFormed-IsClosed c.topology done.well_formed)
        done.well_formed.acyclic in
    let (r, g, committed) = committed-clear (m ∷ ms) c marks stack e in
    let prepared : prepare_batch Graph.default.topology_revision (m ∷ ms) Graph.default
        ≡ (apply_mutations (m ∷ ms) Graph.default >>= commit Graph.default 1 (m ∷ ms)) =
      refl in
    (
      r,
      prepared-built (m ∷ ms) r g
          (prepared ∙ ap (λ x. x >>= commit Graph.default 1 (m ∷ ms)) h ∙ committed),
    )

module _ (tasks : Tasks) (keyed : IsKeyed (λ t. t.id) tasks)
    (sound : Each (IsSoundTask tasks) (Map.values tasks)) where
  task_sound : (v : TextId) (t : TaskDefinition) → Map.get tasks v ≡ some t → IsSoundTask tasks t
  task_sound v t there = Each-get (IsSoundTask tasks) tasks v t sound there

  task_targets : (v d : TextId) → Waits tasks v d → Map.contains_key tasks d ≡ true
  task_targets v d w = elim (Option-cases (Map.get tasks v)) [
    | inl absent ↦ ground arith
    | inr (t, there) ↦ (task_sound v t there).0.1 d (ground arith)
  ]

  acyclic-IsAccepted :
      ((p : List TextId) → ¬ IsCycle (Waits tasks) p) → IsAccepted (workflow_mutations tasks)
  unfolding workflow_mutations contains_task is_completed dependencies Map.get Set.contains
  acyclic-IsAccepted acyclic =
      let (drafted, step, added) =
        adds tasks Graph.default (link_each (Map.values tasks)) keyed (λ v e. refl) in
      let no_edges : (v d : TextId) → Set.contains (dependencies drafted.topology v) d ≡ false =
        λ v d.
          ap
            (λ m.
              Set.contains
                (dependencies (record { tasks = drafted.topology.tasks; dependencies = m }) v) d)
            added.same_dependencies in
      let draft : IsDraft tasks task_targets acyclic drafted = record {
        known = λ v. added.known v ∙ ground (arith, Bool-cases (Map.contains_key tasks v));
        fresh = λ v. ap (λ f. is_completed f v) added.same_facts;
        within = λ v d e.
            let none_yet : Set.contains (dependencies drafted.topology v) d ≡ false =
              no_edges v d in
            ground arith;
      } in
      let (g, rest) =
        links_all tasks task_targets acyclic tasks drafted draft keyed
          (λ k t there. (there, (task_sound k t there).0.0.0)) (λ v e c. no_edges v e) in
      applied-IsAccepted (workflow_mutations tasks) g (step ∙ rest)

-- `validate_workflow` passes exactly where no tasks wait for one another in a circle.
pub validate_workflow-Decides :
    (tasks : Tasks)
    → IsKeyed (λ t. t.id) tasks
    → Each (IsSoundTask tasks) (Map.values tasks)
    → Decides ((p : List TextId) → ¬ IsCycle (Waits tasks) p) (validate_workflow tasks)
validate_workflow-Decides tasks keyed sound =
    Decides-map (IsAccepted (workflow_mutations tasks))
      ((p : List TextId) → ¬ IsCycle (Waits tasks) p) (validate_workflow tasks)
      (accepted-acyclic tasks keyed) (acyclic-IsAccepted tasks keyed sound) (accepts-Decides tasks)
