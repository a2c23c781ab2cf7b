-- ===== src/Workflow/Graph/Changes.antt =====
-- What mutations that were applied did to the topology, told from the list of them.
use kernis.Base.{
  ◌≡◌, ap, ◌∙◌, Bool, false, ◌||◌, ◌&&◌, Option, none, some, List, [], ◌∷◌, arith, ◌==◌,
  if◌then◌else◌, Bool-cases, ok, >>=-eq-ok,
}
use kernis.Core.{TextId, id_ord}
use kernis.BTree.Map
use kernis.BTree.Set
use kernis.Workflow.Topology.{Task, dependencies}
use kernis.Workflow.Graph.{
  WorkflowGraph, WorkflowMutation, add_task, add_dependency, apply_mutation, apply_mutations,
  check_cycle, link, with_dependencies,
}
use kernis.Workflow.Graph.Mutation.{Edge-link}

-- The last task of the identity that the mutations add.
abbrev pub added : List WorkflowMutation → TextId → Option Task
added [] v = none
added (add_task x ∷ ms) v = elim (added ms v) [
  | some y ↦ some y
  | none ↦ if x.id == v then some x else none
]
added (add_dependency id d ∷ ms) v = added ms v

-- Whether the mutations make `v` depend on `e`.
abbrev pub links : List WorkflowMutation → TextId → TextId → Bool
links [] v e = false
links (add_task x ∷ ms) v e = links ms v e
links (add_dependency id d ∷ ms) v e = id == v && d == e || links ms v e

-- The topology has what it had and what the mutations add, and nothing else.
pub record Changes (ms : List WorkflowMutation) (g g' : WorkflowGraph) : Type 0 where
  pub tasks :
      (v : TextId)
      → Map.get g'.topology.tasks v
        ≡ elim (added ms v) [ some x ↦ some x | none ↦ Map.get g.topology.tasks v ]
  pub edges :
      (v e : TextId)
      → Set.contains (dependencies g'.topology v) e
        ≡ (links ms v e || Set.contains (dependencies g.topology v) e)

apply_mutation-Changes :
    (m : WorkflowMutation) (g g' : WorkflowGraph)
    → apply_mutation m g ≡ (ok tt, g')
    → Changes (m ∷ []) g g'
unfolding apply_mutation check_cycle dependencies
apply_mutation-Changes (add_task x) g g' h = record {
  tasks = λ v. ground (arith, Map.get-insert g.topology.tasks x.id x v);
  edges = λ v e. ground arith;
}
apply_mutation-Changes (add_dependency id d) g g' h =
    let same : g' ≡ with_dependencies g (link g.topology.dependencies id d) = ground arith in
    record {
      tasks = λ v. ap (λ x. Map.get x.topology.tasks v) same;
      edges = λ v e.
          ap (λ x. Set.contains (dependencies x.topology v) e) same
          ∙ Edge-link g id d v e
          ∙ ground (arith, Bool-cases (id == v), Bool-cases (d == e));
    }

Changes-cons :
    (m : WorkflowMutation) (ms : List WorkflowMutation) (g mid g' : WorkflowGraph)
    → Changes (m ∷ []) g mid
    → Changes ms mid g'
    → Changes (m ∷ ms) g g'
Changes-cons (add_task x) ms g mid g' h k = record {
  tasks = λ v. ground (arith, h.tasks v, k.tasks v);
  edges = λ v e. ground (arith, h.edges v e, k.edges v e);
}
Changes-cons (add_dependency id d) ms g mid g' h k = record {
  tasks = λ v. ground (arith, h.tasks v, k.tasks v);
  edges = λ v e. ground (arith, h.edges v e, k.edges v e, Bool-cases (links ms v e));
}

pub apply_mutations-Changes :
    (ms : List WorkflowMutation) (g g' : WorkflowGraph)
    → apply_mutations ms g ≡ ok g'
    → Changes ms g g'
unfolding apply_mutations
apply_mutations-Changes [] g g' h = record {
  tasks = λ v. ground arith;
  edges = λ v e. ground arith;
}
apply_mutations-Changes (m ∷ ms) g g' h =
    let mid = (apply_mutation m g).1 in
    let (u, e, f) = >>=-eq-ok (apply_mutation m g).0 (λ _. apply_mutations ms mid) h in
    Changes-cons m ms g mid g' (apply_mutation-Changes m g mid (ground arith))
      (apply_mutations-Changes ms mid g' f)
