-- ===== src/Workflow/Cycle/Spec.antt =====
-- What the search for a cycle promises, for one task and for its dependencies.
use kernis.Base.{◌≡◌, ◌≢◌, refl, true, none, some, List, ◌∷◌, arith, ==_iff}
use kernis.Core.{TextId, id_ord}
use kernis.BTree.Map
use kernis.BTree.Set
use kernis.Workflow.Topology.{WorkflowTopology, Edge, task_ids}
use kernis.Workflow.Cycle.{Marks, active, complete, Search, clear, found, stuck}
use kernis.Dfs.Path.{IsCycle, Grounded}
use kernis.Dfs.Marks.{Extends}

module _ (t : WorkflowTopology) where
  -- Every dependency is a task.
  abbrev pub IsClosed : Type 0
  IsClosed = (v d : TextId) → Edge t v d → Set.contains (task_ids t) d ≡ true

  pub record Inv (m : Marks) (s : List TextId) : Type 0 where
    pub on_stack : (v : TextId) → Map.get m v ≡ some active → Set.contains s v ≡ true
    pub grounded : (v : TextId) → Map.get m v ≡ some complete → Grounded (Edge t) v

  pub record Leaves (m : Marks) (s : List TextId) (m' : Marks) (s' : List TextId) : Type 0 where
    pub same_stack : s' ≡ s
    pub extends : Extends m m'
    pub finished : (v : TextId) → Map.get m v ≡ none → Map.get m' v ≢ some active
    pub grounded : (v : TextId) → Map.get m' v ≡ some complete → Grounded (Edge t) v

  -- What a call for `v` promises: `v` is complete and the stack is as it was, or a cycle is found.
  abbrev pub Ensures : TextId → Marks → List TextId → Search → Type 0
  Ensures v m s (clear m' s') = Leaves m s m' s' × (Map.get m' v ≡ some complete)
  Ensures v m s (found p) = IsCycle (Edge t) p
  Ensures v m s (stuck x) = ⊥

  -- What the loop over dependencies promises besides: they are complete.
  abbrev pub LoopEnsures : List TextId → Marks → List TextId → Search → Type 0
  LoopEnsures ds m s (clear m' s') =
      Leaves m s m' s' × ((d : TextId) → Set.contains ds d ≡ true → Map.get m' d ≡ some complete)
  LoopEnsures ds m s (found p) = IsCycle (Edge t) p
  LoopEnsures ds m s (stuck x) = ⊥

  pub Leaves-Inv : (m m' : Marks) (s s' : List TextId) → Inv m s → Leaves m s m' s' → Inv m' s
  Leaves-Inv m m' s s' h l = record {
    on_stack = λ v e. ground (arith, h.on_stack v, l.extends v, l.finished v);
    grounded = l.grounded;
  }

  pub Leaves-trans :
      (m m' m'' : Marks) (s : List TextId)
      → Leaves m s m' s
      → (s'' : List TextId) → Leaves m' s m'' s''
      → Leaves m s m'' s''
  Leaves-trans m m' m'' s h s'' k = record {
    same_stack = k.same_stack;
    extends = λ v e. ground (arith, h.extends v, k.extends v);
    finished = λ v e f. ground (arith, h.finished v e, k.finished v, k.extends v);
    grounded = k.grounded;
  }

  pub Leaves-refl : (m : Marks) (s : List TextId) → Inv m s → Leaves m s m s
  Leaves-refl m s h = record {
    same_stack = refl;
    extends = λ v e. refl;
    finished = λ v e f. ground arith;
    grounded = h.grounded;
  }

  -- One dependency is complete, and the loop goes on.
  pub LoopEnsures-cons :
      (d : TextId) (ds : List TextId) (m m₁ : Marks) (s : List TextId) (r : Search)
      → Leaves m s m₁ s
      → Map.get m₁ d ≡ some complete
      → LoopEnsures ds m₁ s r
      → LoopEnsures (d ∷ ds) m s r
  unfolding Set.contains
  LoopEnsures-cons d ds m m₁ s (clear m' s') l e h =
      (Leaves-trans m m₁ m' s l s' h.0, λ d' c. ground (arith, h.1 d', h.0.extends d, ==_iff d d'))
  LoopEnsures-cons d ds m m₁ s (found p) l e h = h
  LoopEnsures-cons d ds m m₁ s (stuck x) l e h = h
