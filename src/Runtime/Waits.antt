-- ===== src/Runtime/Waits.antt =====
-- The workflow graph accepts the tasks of a definition exactly where they do not wait for one another
-- in a circle.
use mathlib.Core.List.{flat_map}
use kernis.Base.{
  ◌≡◌, refl, ◌∙◌, Bool, true, false, ◌||◌, ◌&&◌, none, some, List, [], ◌∷◌, ◌++◌, map, arith,
  Bool-cases, inl, inr, ==_iff, ◌==◌, ok,
}
use kernis.Core.{TextId, id_ord}
use kernis.BTree.Map
use kernis.BTree.Map.{Map}
use kernis.BTree.Set
use kernis.Dfs.Path.{IsCycle}
use kernis.Workflow.Topology.{Task, Edge, contains_task, dependencies}
use kernis.Workflow.Cycle.{Search, clear, found, stuck, cycle_path}
use kernis.Workflow.Cycle.Spec.{IsClosed}
use kernis.Workflow.Cycle.Correct.{CycleEnsures, cycle_path_lem}
use kernis.Workflow.Graph.{
  WorkflowGraph, WorkflowMutation, add_task, add_dependency, apply_mutation, apply_mutations,
  check_cycle, is_completed, link, with_tasks, with_dependencies, entry_set,
}
use kernis.Workflow.Graph.Mutation.{contains-task_ids, Edge-link}
use kernis.Recovery.Durable.Index.{unique}
use kernis.Runtime.Definition.{TaskDefinition, Tasks}
use kernis.Runtime.Keyed.{IsKeyed, tail-IsKeyed, head-IsKeyed}
use kernis.Runtime.Depends.{IsCycle-map}

-- The task of the one identity declares a dependency on the other.
abbrev pub waits : Tasks → TextId → TextId → Bool
waits m v d = elim (Map.get m v) [ none ↦ false | some t ↦ Set.contains t.dependencies d ]

abbrev pub Waits : Tasks → TextId → TextId → Type 0
Waits m v d = waits m v d ≡ true

abbrev pub add_each : List TaskDefinition → List WorkflowMutation
add_each ts = map (λ task. add_task (record { id = task.id; label = task.label })) ts

abbrev pub link_task : TaskDefinition → List WorkflowMutation
link_task task = map (λ d. add_dependency task.id d) task.dependencies

abbrev pub link_each : List TaskDefinition → List WorkflowMutation
link_each ts = flat_map link_task ts

-- The loop of a batch goes on where a mutation was applied.
applied :
    (m : WorkflowMutation) (ms : List WorkflowMutation) (g mid : WorkflowGraph)
    → apply_mutation m g ≡ (ok tt, mid)
    → apply_mutations (m ∷ ms) g ≡ apply_mutations ms mid
unfolding apply_mutations
applied m ms g mid e = rw e refl

task_added :
    (x : Task) (g : WorkflowGraph)
    → contains_task g.topology x.id ≡ false
    → apply_mutation (add_task x) g ≡ (ok tt, with_tasks g (Map.insert g.topology.tasks x.id x))
unfolding apply_mutation
task_added x g new = rw new refl

-- What tasks that are new leave behind.
pub record HasAdded (m : Tasks) (g g' : WorkflowGraph) : Type 0 where
  pub known :
      (v : TextId)
      → contains_task g'.topology v ≡ (Map.contains_key m v || contains_task g.topology v)
  pub same_dependencies : g'.topology.dependencies ≡ g.topology.dependencies
  pub same_facts : g'.facts ≡ g.facts

pub adds :
    (m : Tasks) (g : WorkflowGraph) (rest : List WorkflowMutation)
    → IsKeyed (λ t. t.id) m
    → ((v : TextId) → Map.contains_key m v ≡ true → contains_task g.topology v ≡ false)
    → (g' : WorkflowGraph) × (apply_mutations (add_each (Map.values m) ++ rest) g
        ≡ apply_mutations rest g')
      × HasAdded m g g'
unfolding Map.get contains_task
adds [] g rest h new =
    (g, refl, record { known = λ v. refl; same_dependencies = refl; same_facts = refl })
adds ((k, t) ∷ m) g rest h new =
    let (own, absent) = head-IsKeyed (λ t. t.id) k t m h in
    let task : Task = record { id = t.id; label = t.label } in
    let mid = with_tasks g (Map.insert g.topology.tasks t.id task) in
    let known = Map.get-insert g.topology.tasks t.id task in
    let (g', step, done) =
      adds m mid rest (tail-IsKeyed (λ t. t.id) k t m h)
        (λ v e. ground (arith, known v, new v, own, absent, ==_iff t.id v, ==_iff k v)) in
    let fresh : contains_task g.topology t.id ≡ false =
      ground (arith, new t.id, own, ==_iff k t.id) in
    (
      g',
      applied (add_task task) _ g mid (task_added task g fresh) ∙ step,
      record {
        known = λ v. ground (arith, done.known v, known v, own, ==_iff k v, ==_iff t.id v);
        same_dependencies = done.same_dependencies;
        same_facts = done.same_facts;
      },
    )

module _ (tasks : Tasks)
    (targets : (v d : TextId) → Waits tasks v d → Map.contains_key tasks d ≡ true)
    (acyclic : (p : List TextId) → ¬ IsCycle (Waits tasks) p) where
  -- The graph has the tasks, of which none is completed, and no dependencies but theirs.
  pub record IsDraft (g : WorkflowGraph) : Type 0 where
    pub known : (v : TextId) → contains_task g.topology v ≡ Map.contains_key tasks v
    pub fresh : (v : TextId) → is_completed g.facts v ≡ false
    pub within : (v d : TextId) → Edge g.topology v d → Waits tasks v d

  module _ (id d : TextId) (g : WorkflowGraph) (h : IsDraft g) (wait : Waits tasks id d) where
    abbrev linked : WorkflowGraph
    linked = with_dependencies g (link g.topology.dependencies id d)

    linked-IsDraft : IsDraft linked
    unfolding contains_task
    linked-IsDraft = record {
      known = h.known;
      fresh = h.fresh;
      within = λ v e k. elim (Bool-cases (id == v && d == e)) [
        | inl new ↦ ground (arith, new, wait, ==_iff id v, ==_iff d e)
        | inr old ↦ h.within v e (ground (arith, old, k, Edge-link g id d v e))
      ];
    }

    linked-IsClosed : IsClosed linked.topology
    linked-IsClosed v e k =
        contains-task_ids linked.topology e
        ∙ linked-IsDraft.known e
        ∙ targets v e (linked-IsDraft.within v e k)

    check_linked : check_cycle id d linked ≡ (ok tt, linked)
    unfolding check_cycle
    check_linked =
        go (cycle_path linked.topology) refl (cycle_path_lem linked.topology linked-IsClosed)
      where
        go :
            (r : Search)
            → cycle_path linked.topology ≡ r
            → CycleEnsures linked.topology r
            → check_cycle id d linked ≡ (ok tt, linked)
        go (clear m s) e c = rw (e, check_cycle) refl
        go (found p) e c =
            absurd (
              acyclic p
                (IsCycle-map (Edge linked.topology) (Waits tasks) linked-IsDraft.within p c))
        go (stuck x) e c = absurd c

    dependency_added :
        Map.contains_key tasks id ≡ true
        → Set.contains (dependencies g.topology id) d ≡ false
        → apply_mutation (add_dependency id d) g ≡ (ok tt, linked)
    unfolding apply_mutation dependencies entry_set
    dependency_added source new =
        let here : contains_task g.topology id ≡ true = h.known id ∙ source in
        let there : contains_task g.topology d ≡ true = h.known d ∙ targets id d wait in
        ground (arith, here, there, h.fresh id, new, check_linked)

  -- The dependencies of one task are added, and those of the others stay.
  links_one :
      (id : TextId) (ds : List TextId) (g : WorkflowGraph) (rest : List WorkflowMutation)
      → IsDraft g
      → Map.contains_key tasks id ≡ true
      → unique ds ≡ true
      → ((d : TextId)
          → Set.contains ds d ≡ true
          → Waits tasks id d × (Set.contains (dependencies g.topology id) d ≡ false))
      → (g' : WorkflowGraph) × (apply_mutations (map (λ d. add_dependency id d) ds ++ rest) g
          ≡ apply_mutations rest g')
        × IsDraft g'
        × ((v e : TextId)
            → (id ≡ v → ⊥)
            → Set.contains (dependencies g'.topology v) e
              ≡ Set.contains (dependencies g.topology v) e)
  unfolding Set.contains
  links_one id [] g rest h source distinct new = (g, refl, h, λ v e other. refl)
  links_one id (d ∷ ds) g rest h source distinct new =
      let (wait, fresh) = new d (ground (arith, ==_iff d d)) in
      let mid = linked id d g h wait in
      let edges = Edge-link g id d in
      let (g', step, draft, others) =
        links_one id ds mid rest (linked-IsDraft id d g h wait) source (ground arith) (λ e k. (
          (new e (ground arith)).0,
          ground (arith, (new e (ground arith)).1, edges id e, k, distinct, ==_iff d e),
        )) in
      (
        g',
        applied (add_dependency id d) _ g mid (dependency_added id d g h wait source fresh) ∙ step,
        draft,
        λ v e other. others v e other ∙ ground (arith, edges v e, ==_iff id v),
      )

  -- The dependencies of all tasks are added.
  pub links_all :
      (m : Tasks) (g : WorkflowGraph)
      → IsDraft g
      → IsKeyed (λ t. t.id) m
      → ((k : TextId) (t : TaskDefinition)
          → Map.get m k ≡ some t
          → (Map.get tasks k ≡ some t) × (unique t.dependencies ≡ true))
      → ((v e : TextId)
          → Map.contains_key m v ≡ true
          → Set.contains (dependencies g.topology v) e ≡ false)
      → (g' : WorkflowGraph) × (apply_mutations (link_each (Map.values m)) g ≡ ok g')
  unfolding apply_mutations flat_map Map.get
  links_all [] g h keyed sub new = (g, refl)
  links_all ((k, t) ∷ m) g h keyed sub new =
      let (own, absent) = head-IsKeyed (λ t. t.id) k t m keyed in
      let (there, distinct) = sub k t (ground (arith, ==_iff k k)) in
      let (mid, step, draft, others) =
        links_one t.id t.dependencies g (link_each (Map.values m)) h (ground (arith, own, there))
          distinct
          (λ d e.
            (ground (arith, own, there, e), new t.id d (ground (arith, own, ==_iff k t.id)))) in
      let (g', rest) =
        links_all m mid draft (tail-IsKeyed (λ t. t.id) k t m keyed)
          (λ j u e. sub j u (ground (arith, absent, ==_iff k j)))
          (λ v e c.
            others v e (λ same. ground (arith, same, own, absent)) ∙ new v e (ground (arith, c))) in
      (g', step ∙ rest)
