-- ===== src/Workflow/Cycle.antt =====
-- The depth-first search for a dependency cycle: `cycle_path` and `visit`.
pub mod Spec
pub mod Visits
pub mod Correct
use kernis.Base.{
  ℕ, zero, suc, ◌≡◌, Bool, true, false, Option, none, some, List, [], ◌∷◌, ◌++◌, if◌then◌else◌,
  length, drop, pop, Fault, panic, out_of_fuel, ◌==◌,
}
use kernis.Core.{TextId, id_ord}
use kernis.BTree.Map
use kernis.BTree.Set
use kernis.BTree.Map.{Map}
use kernis.Dfs.Path.{position}
use kernis.Workflow.Topology.{WorkflowTopology, task_ids, dependencies}

pub data VisitState : Type 0 where
  active complete : VisitState

abbrev pub Marks : Type 0
Marks = Map TextId VisitState

-- What a call of `visit` leaves: the marks and the stack where it returns `None`, and the path
-- where it returns one.
pub data Search : Type 0 where
  clear : Marks → List TextId → Search
  found : List TextId → Search
  stuck : Fault → Search

-- The arm for a dependency that is `Active`.
unfoldable pub close_cycle : List TextId → TextId → Search
unfolding position
close_cycle stack d = elim (position stack d) [
  | none ↦ stuck panic
  | some start ↦ found (drop start stack ++ d ∷ [])
]

-- The loop of `visit` over the dependencies; `visit'` is the recursive call.
unfoldable pub visit_dependencies :
    (TextId → Marks → List TextId → Search) → List TextId → Marks → List TextId → Search
unfolding close_cycle
visit_dependencies visit' [] marks stack = clear marks stack
visit_dependencies visit' (d ∷ ds) marks stack = elim (Map.get marks d) [
  | none ↦ elim (visit' d marks stack) [
    | clear m s ↦ visit_dependencies visit' ds m s
    | found p ↦ found p
    | stuck x ↦ stuck x
  ]
  | some active ↦ close_cycle stack d
  | some complete ↦ visit_dependencies visit' ds marks stack
]

-- What `visit` does after its loop.
unfoldable pub leave : TextId → Search → Search
leave id (clear marks stack) = clear (Map.insert marks id complete) (pop stack)
leave id (found p) = found p
leave id (stuck x) = stuck x

module _ (t : WorkflowTopology) where
  -- The fuel bounds the depth of the recursion.
  unfoldable pub visit : ℕ → TextId → Marks → List TextId → Search
  unfolding visit_dependencies leave
  visit zero id marks stack = stuck out_of_fuel
  visit (suc fuel) id marks stack = leave id (
      visit_dependencies (visit fuel) (dependencies t id) (Map.insert marks id active)
        (stack ++ id ∷ []))

  -- The loop of `cycle_path` over the tasks.
  unfoldable pub visit_tasks : ℕ → List TextId → Marks → List TextId → Search
  unfolding visit
  visit_tasks fuel [] marks stack = clear marks stack
  visit_tasks fuel (id ∷ ids) marks stack = elim (Map.get marks id) [
    | some _ ↦ visit_tasks fuel ids marks stack
    | none ↦ elim (visit fuel id marks stack) [
      | clear m s ↦ visit_tasks fuel ids m s
      | found p ↦ found p
      | stuck x ↦ stuck x
    ]
  ]

  -- Each call marks a task that was not marked, so the calls nest no deeper than the tasks.
  unfoldable pub cycle_path : Search
  unfolding visit_tasks
  cycle_path = visit_tasks (suc (length (task_ids t))) (task_ids t) [] []
