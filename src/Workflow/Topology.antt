-- ===== src/Workflow/Topology.antt =====
-- The mutable topology of a workflow: `WorkflowTopology` and its readers.
use mathlib.Core.List.{flat_map}
use kernis.Base.{ℕ, ◌≡◌, Bool, true, Option, none, some, List, [], map}
use kernis.Core.{TextId, id_ord}
use kernis.BTree.Map
use kernis.BTree.Set
use kernis.BTree.Map.{Map}

pub record Task : Type 0 where
  pub id : TextId
  pub label : List ℕ

-- `dependencies` has the incoming dependencies of each task.
pub record WorkflowTopology : Type 0 where
  pub tasks : Map TextId Task
  pub dependencies : Map TextId (List TextId)

module _ (t : WorkflowTopology) where
  unfoldable pub task : TextId → Option Task
  task id = Map.get t.tasks id

  unfoldable pub tasks : List Task
  tasks = Map.values t.tasks

  unfoldable pub task_ids : List TextId
  task_ids = Map.keys t.tasks

  unfoldable pub dependencies : TextId → List TextId
  dependencies id = elim (Map.get t.dependencies id) [ none ↦ [] | some ds ↦ ds ]

  unfoldable pub edges : List (TextId × TextId)
  edges = flat_map (λ e. map (λ d. (e.0, d)) e.1) t.dependencies

  unfoldable pub contains_task : TextId → Bool
  contains_task id = Map.contains_key t.tasks id

  -- `Edge v d`: the task `v` waits for `d`.
  abbrev pub Edge : TextId → TextId → Type 0
  Edge v d = Set.contains (dependencies v) d ≡ true
