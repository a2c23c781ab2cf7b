-- ===== src/Workflow/Cycle/Correct.antt =====
-- The search is total on a topology whose edges stay inside it, a path that it finds is a cycle,
-- and where it finds none the dependencies are well founded.
use kernis.Base.{
  ℕ, suc, ◌≡◌, ◌<◌, refl, sym, subst, true, Option, none, some, List, [], ◌∷◌, arith, ==_iff,
  length, Bool-cases, ◌⊎◌, inl, inr, ◌==◌,
}
use kernis.Core.{TextId, id_ord}
use kernis.BTree.Map
use kernis.BTree.Set
use kernis.Workflow.Topology.{WorkflowTopology, Edge, task_ids}
use kernis.Workflow.Cycle.{
  Marks, VisitState, active, complete, Search, clear, found, stuck, visit, visit_tasks, cycle_path,
}
use kernis.Dfs.Path.{IsCycle, Grounded, Grounded-no_cycle}
use kernis.Dfs.Marks.{unmarked, Extends, unmarked-le, unmarked-nil}
use kernis.Workflow.Cycle.Spec.{IsClosed, Inv, Ensures, Leaves-Inv}
use kernis.Workflow.Cycle.Visits.{visit-Ensures}

module _ (t : WorkflowTopology) where
  -- What the search over the tasks `ids` promises.
  abbrev TasksEnsures : List TextId → Marks → Search → Type 0
  TasksEnsures ids m (clear m' s') =
      Extends m m' × ((v : TextId) → Set.contains ids v ≡ true → Grounded (Edge t) v)
  TasksEnsures ids m (found p) = IsCycle (Edge t) p
  TasksEnsures ids m (stuck x) = ⊥

  TasksEnsures-cons :
      (v : TextId) (ids : List TextId) (m m' : Marks) (r : Search)
      → Extends m m'
      → Grounded (Edge t) v
      → TasksEnsures ids m' r
      → TasksEnsures (v ∷ ids) m r
  unfolding Set.contains
  TasksEnsures-cons v ids m m' (clear m'' s'') x g h = (
    λ u e. ground (arith, x u, h.0 u),
    λ u c. elim (Bool-cases (v == u)) [
      | inl same ↦ subst (Grounded (Edge t)) ((==_iff v u).0 same) g
      | inr other ↦ h.1 u (ground arith)
    ],
  )
  TasksEnsures-cons v ids m m' (found p) x g h = h
  TasksEnsures-cons v ids m m' (stuck y) x g h = h

  -- Between two tasks nothing is active.
  abbrev Settled : Marks → Type 0
  Settled m = Inv t m []

  abbrev TasksCall : ℕ → List TextId → Type 0
  TasksCall fuel ids =
      (m : Marks)
      → unmarked m (task_ids t) < fuel
      → Settled m
      → TasksEnsures ids m (visit_tasks t fuel ids m [])

  -- The search goes on behind a task that was not marked.
  after_task :
      (fuel : ℕ) (v : TextId) (ids : List TextId) (m : Marks)
      → TasksCall fuel ids
      → unmarked m (task_ids t) < fuel
      → Settled m
      → Map.get m v ≡ none
      → (r : Search) → visit t fuel v m [] ≡ r
      → Ensures t v m [] r
      → TasksEnsures (v ∷ ids) m (visit_tasks t fuel (v ∷ ids) m [])
  unfolding visit_tasks
  after_task fuel v ids m loop room inv e (clear m' s') c h =
      rw (e, visit_tasks)
        (rw c (
          subst (λ z. TasksEnsures (v ∷ ids) m (visit_tasks t fuel ids m' z)) (sym h.0.same_stack)
            (TasksEnsures-cons v ids m m' _ h.0.extends (h.0.grounded v h.1) (
              loop m' (omega (arith, unmarked-le m m' (task_ids t) h.0.extends))
                (Leaves-Inv t m m' [] s' inv h.0)))))
  after_task fuel v ids m loop room inv e (found p) c h = rw (e, visit_tasks) (rw c h)
  after_task fuel v ids m loop room inv e (stuck x) c h = absurd h

  task-Ensures :
      IsClosed t
      → (fuel : ℕ) (v : TextId) (ids : List TextId) → Set.contains (task_ids t) v ≡ true
      → TasksCall fuel ids
      → (m : Marks) (o : Option VisitState) → Map.get m v ≡ o
      → unmarked m (task_ids t) < fuel
      → Settled m
      → TasksEnsures (v ∷ ids) m (visit_tasks t fuel (v ∷ ids) m [])
  unfolding visit_tasks Set.contains
  task-Ensures closed fuel v ids c loop m none e room inv =
      after_task fuel v ids m loop room inv e _ refl
        (visit-Ensures t closed fuel v m [] c e room inv tt)
  task-Ensures closed fuel v ids c loop m (some active) e room inv = cc (inv.on_stack v e)
  task-Ensures closed fuel v ids c loop m (some complete) e room inv =
      rw (e, visit_tasks)
        (TasksEnsures-cons v ids m m _ (λ u k. refl) (inv.grounded v e) (loop m room inv))

  tasks-Ensures :
      IsClosed t
      → (fuel : ℕ) (ids : List TextId)
      → ((v : TextId) → Set.contains ids v ≡ true → Set.contains (task_ids t) v ≡ true)
      → TasksCall fuel ids
  unfolding visit_tasks Set.contains
  tasks-Ensures closed fuel [] sub m room inv = (λ v e. refl, λ v c. cc)
  tasks-Ensures closed fuel (v ∷ ids) sub m room inv =
      task-Ensures closed fuel v ids (sub v (ground (arith, ==_iff v v)))
        (tasks-Ensures closed fuel ids (λ u c. sub u (ground arith))) m (Map.get m v) refl room inv

  Settled-nil : Settled []
  unfolding Map.get
  Settled-nil = record { on_stack = λ v e. cc; grounded = λ v e. cc }

  -- What `cycle_path` promises.
  abbrev pub CycleEnsures : Search → Type 0
  CycleEnsures (clear m s) = (v : TextId) → Set.contains (task_ids t) v ≡ true → Grounded (Edge t) v
  CycleEnsures (found p) = IsCycle (Edge t) p
  CycleEnsures (stuck x) = ⊥

  TasksEnsures-CycleEnsures : (r : Search) → TasksEnsures (task_ids t) [] r → CycleEnsures r
  TasksEnsures-CycleEnsures (clear m s) h = h.1
  TasksEnsures-CycleEnsures (found p) h = h
  TasksEnsures-CycleEnsures (stuck x) h = h

  -- In a topology whose dependencies are all tasks, `cycle_path` neither panics nor runs out of
  -- fuel; a path that it returns is a cycle; and where it returns none, every chain of
  -- dependencies from every task ends.
  pub cycle_path_lem : IsClosed t → CycleEnsures (cycle_path t)
  unfolding cycle_path
  cycle_path_lem closed = TasksEnsures-CycleEnsures _ (
      tasks-Ensures closed (suc (length (task_ids t))) (task_ids t) (λ v c. c) []
        (omega (arith, unmarked-nil VisitState (task_ids t))) Settled-nil)

  abbrev pub IsAcyclic : Type 0
  IsAcyclic = (v : TextId) → Set.contains (task_ids t) v ≡ true → Grounded (Edge t) v

  pub IsAcyclic-no_cycle : IsClosed t → IsAcyclic → (p : List TextId) → ¬ IsCycle (Edge t) p
  IsAcyclic-no_cycle closed grounded =
      Grounded-no_cycle (Edge t) (λ v d e. grounded d (closed v d e))

  decide :
      IsClosed t
      → (r : Search) → cycle_path t ≡ r
      → CycleEnsures r
      → ((p : List TextId) × (cycle_path t ≡ found p) × IsCycle (Edge t) p)
        ⊎ ((m : Marks) × (s : List TextId) × (cycle_path t ≡ clear m s)
            × ((p : List TextId) → ¬ IsCycle (Edge t) p))
  decide closed (clear m s) e h = inr (m, s, e, IsAcyclic-no_cycle closed h)
  decide closed (found p) e h = inl (p, e, h)
  decide closed (stuck x) e h = absurd h

-- Where there is no cycle, the search finds none.
pub cycle_path-clear :
    (t : WorkflowTopology)
    → IsClosed t
    → IsAcyclic t
    → (m : Marks) × (s : List TextId) × (cycle_path t ≡ clear m s)
cycle_path-clear t closed h = elim (decide t closed _ refl (cycle_path_lem t closed)) [
  | inl (p, e, c) ↦ absurd (IsAcyclic-no_cycle t closed h p c)
  | inr (m, s, e, c) ↦ (m, s, e)
]

-- In a topology whose dependencies are all tasks `cycle_path` always returns, without a panic: either
-- with a path, which is a cycle of dependencies, or with none, and then there is no such cycle.
pub cycle_path_decides :
    (t : WorkflowTopology)
    → IsClosed t
    → ((p : List TextId) × (cycle_path t ≡ found p) × IsCycle (Edge t) p)
      ⊎ ((m : Marks) × (s : List TextId) × (cycle_path t ≡ clear m s)
          × ((p : List TextId) → ¬ IsCycle (Edge t) p))
cycle_path_decides t closed = decide t closed _ refl (cycle_path_lem t closed)
