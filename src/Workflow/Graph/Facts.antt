-- ===== src/Workflow/Graph/Facts.antt =====
-- Completion: `complete` succeeds exactly on the ready tasks, and while a task is left one is ready.
use mathlib.Core.WellFounded.{Acc}
use kernis.Base.{
  ◌≡◌, refl, ◌∙◌, true, false, ◌&&◌, ◌||◌, ◌==◌, ◌++◌, Option, none, some, List, [], ◌∷◌, arith,
  Bool-cases, Option-cases, inl, inr, ◌↔◌, ok, err, fault, ==_iff,
}
use kernis.Core.{TextId, id_ord}
use kernis.BTree.Map
use kernis.BTree.Set
use kernis.BTree.Keys.{contains-keys}
use kernis.Workflow.Topology.{contains_task, dependencies, Edge}
use kernis.Dfs.Path.{Grounded}
use kernis.Workflow.Graph.{
  WorkflowGraph, WorkflowGraphError, ExecutionFacts, CompletionRecord, Fallible, is_completed,
  complete, first_incomplete, all_completed, is_ready, filter_ready, ready_tasks, record_completion,
  unknown_task, task_already_completed, incomplete_prerequisite,
}
use kernis.Workflow.Graph.Mutation.{IsWellFormed, contains-task_ids}

-- A task that is not completed, and all of whose dependencies are.
pub record IsEnabled (g : WorkflowGraph) (id : TextId) : Type 0 where
  pub is_task : contains_task g.topology id ≡ true
  pub pending : is_completed g.facts id ≡ false
  pub waits_for_none : (d : TextId) → Edge g.topology id d → is_completed g.facts d ≡ true

first_incomplete-none :
    (f : ExecutionFacts) (ds : List TextId) (d : TextId)
    → first_incomplete f ds ≡ none
    → Set.contains ds d ≡ true
    → is_completed f d ≡ true
unfolding first_incomplete Set.contains
first_incomplete-none f [] d h c = cc
first_incomplete-none f (x ∷ ds) d h c = ground (arith, first_incomplete-none f ds d, ==_iff x d)

first_incomplete-some :
    (f : ExecutionFacts) (ds : List TextId) (x : TextId)
    → first_incomplete f ds ≡ some x
    → (is_completed f x ≡ false) × (Set.contains ds x ≡ true)
unfolding first_incomplete Set.contains
first_incomplete-some f [] x h = cc
first_incomplete-some f (d ∷ ds) x h = ground (arith, first_incomplete-some f ds x, ==_iff x x)

-- `ready_tasks` and `complete` test the dependencies alike.
all_completed_iff :
    (f : ExecutionFacts) (ds : List TextId)
    → (all_completed f ds ≡ true) ↔ (first_incomplete f ds ≡ none)
unfolding all_completed first_incomplete
all_completed_iff f [] = (λ h. refl, λ h. refl)
all_completed_iff f (x ∷ ds) = ground (arith, all_completed_iff f ds)

is_ready_iff :
    (g : WorkflowGraph) (v : TextId)
    → (is_ready g v ≡ true) ↔ (
        (is_completed g.facts v ≡ false)
        × (first_incomplete g.facts (dependencies g.topology v) ≡ none))
unfolding is_ready dependencies first_incomplete
is_ready_iff g v = go (Map.get g.topology.dependencies v) refl
  where
    go :
        (o : Option (List TextId))
        → Map.get g.topology.dependencies v ≡ o
        → (is_ready g v ≡ true) ↔ (
            (is_completed g.facts v ≡ false)
            × (first_incomplete g.facts (dependencies g.topology v) ≡ none))
    go none e = ground arith
    go (some ds) e = ground (arith, all_completed_iff g.facts ds)

contains-filter_ready :
    (g : WorkflowGraph) (ids : List TextId) (v : TextId)
    → Set.contains (filter_ready g ids) v ≡ (Set.contains ids v && is_ready g v)
unfolding filter_ready Set.contains
contains-filter_ready g [] v = refl
contains-filter_ready g (x ∷ ids) v = ground (arith, contains-filter_ready g ids v, ==_iff x v)

contains-ready_tasks :
    (g : WorkflowGraph) (v : TextId)
    → Set.contains (ready_tasks g) v ≡ (contains_task g.topology v && is_ready g v)
unfolding ready_tasks contains_task
contains-ready_tasks g v =
    ground (
      arith,
      contains-filter_ready g (Map.keys g.topology.tasks) v,
      contains-keys g.topology.tasks v,
    )

first_incomplete_of_enabled :
    (f : ExecutionFacts) (ds : List TextId)
    → ((d : TextId) → Set.contains ds d ≡ true → is_completed f d ≡ true)
    → first_incomplete f ds ≡ none
first_incomplete_of_enabled f ds h = elim (Option-cases (first_incomplete f ds)) [
  | inl e ↦ e
  | inr (d, e) ↦
      let (no_d, has_d) = first_incomplete-some f ds d e in let yes_d = h d has_d in ground arith
]

-- `ready_tasks` lists exactly the tasks that are not completed and all of whose dependencies are.
pub ready_tasks_iff :
    (g : WorkflowGraph) (v : TextId) → (Set.contains (ready_tasks g) v ≡ true) ↔ IsEnabled g v
ready_tasks_iff g v = (
  λ h. record {
    is_task = ground (arith, contains-ready_tasks g v);
    pending = ground (arith, contains-ready_tasks g v, is_ready_iff g v);
    waits_for_none = λ d e.
        first_incomplete-none g.facts (dependencies g.topology v) d
          (ground (arith, contains-ready_tasks g v, is_ready_iff g v)) e;
  },
  λ h.
      let free = first_incomplete_of_enabled g.facts (dependencies g.topology v) h.waits_for_none in
      ground (arith, contains-ready_tasks g v, is_ready_iff g v, h.is_task, h.pending),
)

-- The task is completed, as are those before, and it stands last in the log; all else is the same.
pub record Completes (id : TextId) (g g' : WorkflowGraph) : Type 0 where
  pub completed : (v : TextId) → is_completed g'.facts v ≡ (id == v || is_completed g.facts v)
  pub log : g'.facts.completion_log ≡ g.facts.completion_log ++ record { task_id = id } ∷ []
  pub same_topology : g'.topology ≡ g.topology
  pub same_revision : g'.topology_revision ≡ g.topology_revision
  pub same_log : g'.mutation_log ≡ g.mutation_log

record_completion-Completes :
    (id : TextId) (g : WorkflowGraph) → Completes id g (record_completion id g)
unfolding is_completed
record_completion-Completes id g = record {
  completed = Set.contains-insert g.facts.completed id;
  log = refl;
  same_topology = refl;
  same_revision = refl;
  same_log = refl;
}

-- What `complete` promises on each branch.
abbrev pub CompleteEnsures :
    TextId → WorkflowGraph → Fallible CompletionRecord × WorkflowGraph → Type 0
CompleteEnsures id g (ok r, g') = IsEnabled g id × (r ≡ record { task_id = id }) × Completes id g g'
CompleteEnsures id g (err (unknown_task v), g') =
    (v ≡ id) × (contains_task g.topology id ≡ false) × (g' ≡ g)
CompleteEnsures id g (err (task_already_completed v), g') =
    (v ≡ id) × (contains_task g.topology id ≡ true) × (is_completed g.facts id ≡ true) × (g' ≡ g)
CompleteEnsures id g (err (incomplete_prerequisite v d), g') =
    (v ≡ id)
    × (is_completed g.facts id ≡ false)
    × Edge g.topology id d
    × (is_completed g.facts d ≡ false)
    × (g' ≡ g)
CompleteEnsures id g (err _, g') = ⊥
CompleteEnsures id g (fault _, g') = ⊥

-- `complete` succeeds exactly where the task is not completed and waits for none. Then the completed
-- tasks are those before and this one, the log has it last, and topology, revision and the log of
-- mutations stay. Otherwise it says why: no such task, completed before, or a dependency that is not
-- completed, which it names. On an error the graph stays as it is.
pub complete-Ensures : (id : TextId) (g : WorkflowGraph) → CompleteEnsures id g (complete id g)
unfolding complete
complete-Ensures id g = elim (Bool-cases (contains_task g.topology id)) [
  | inr e ↦ rw e (refl, e, refl)
  | inl e ↦ elim (Bool-cases (is_completed g.facts id)) [
    | inl done ↦ rw (e, done) (refl, e, done, refl)
    | inr pending ↦ elim (Option-cases (first_incomplete g.facts (dependencies g.topology id))) [
      | inl free ↦
          rw (e, pending, free)
            (
              record {
                is_task = e;
                pending = pending;
                waits_for_none =
                    λ d k. first_incomplete-none g.facts (dependencies g.topology id) d free k;
              },
              refl,
              record_completion-Completes id g,
            )
      | inr (d, left) ↦
          let (no_d, has_d) = first_incomplete-some g.facts (dependencies g.topology id) d left in
          rw (e, pending, left) (refl, pending, has_d, no_d, refl)
    ]
  ]
]

-- Below every pending task there is one that is ready.
ready_below :
    (g : WorkflowGraph)
    → IsWellFormed g.topology
    → (v : TextId) → Grounded (Edge g.topology) v
    → contains_task g.topology v ≡ true
    → is_completed g.facts v ≡ false
    → (u : TextId) × (Set.contains (ready_tasks g) u ≡ true)
ready_below g h v (Acc.intro _ below) c pending =
    elim (Option-cases (first_incomplete g.facts (dependencies g.topology v))) [
      | inl free ↦ (
        v,
        (ready_tasks_iff g v).1 (record {
          is_task = c;
          pending = pending;
          waits_for_none =
              λ d k. first_incomplete-none g.facts (dependencies g.topology v) d free k;
        }),
      )
      | inr (d, left) ↦
          let (no_d, has_d) = first_incomplete-some g.facts (dependencies g.topology v) d left in
          ready_below g h d (below d has_d) (h.targets v d has_d) no_d
    ]

-- A workflow does not get stuck: while a task of a well-formed graph is not completed, some task is
-- ready.
pub ready_tasks_progress :
    (g : WorkflowGraph) (v : TextId)
    → IsWellFormed g.topology
    → contains_task g.topology v ≡ true
    → is_completed g.facts v ≡ false
    → (u : TextId) × (Set.contains (ready_tasks g) u ≡ true)
ready_tasks_progress g v h c pending =
    ready_below g h v (h.acyclic v (contains-task_ids g.topology v ∙ c)) c pending

-- A success of `complete` leaves the graph with the completion.
pub complete-eq-ok :
    (id : TextId) (g g' : WorkflowGraph) (r : CompletionRecord)
    → complete id g ≡ (ok r, g')
    → g' ≡ record_completion id g
unfolding complete
complete-eq-ok id g g' r e = ground arith

-- An error of `complete` leaves the graph as it is.
pub complete-eq-err :
    (id : TextId) (g g' : WorkflowGraph) (x : WorkflowGraphError)
    → complete id g ≡ (err x, g')
    → g' ≡ g
unfolding complete
complete-eq-err id g g' x e = ground arith
