-- ===== src/Workflow/Cycle/Visits.antt =====
-- `visit` keeps its promise.
use mathlib.Core.WellFounded.{Acc}
use kernis.Base.{
  ℕ, zero, suc, ◌≡◌, ◌<◌, refl, sym, subst, true, Option, none, some, List, [], ◌∷◌, ◌++◌, arith,
  ==_iff, Bool-cases, inl, inr, pop-snoc, ◌==◌,
}
use kernis.Core.{TextId, id_ord}
use kernis.BTree.Map
use kernis.BTree.Set
use kernis.Workflow.Topology.{WorkflowTopology, Edge, task_ids, dependencies}
use kernis.Workflow.Cycle.{
  Marks, VisitState, active, complete, Search, clear, found, stuck, visit_dependencies, leave,
  visit, close_cycle,
}
use kernis.Dfs.Path.{IsChain, Grounded, IsChain-snoc, position-IsCycle}
use kernis.Dfs.Marks.{unmarked, unmarked-le, unmarked-insert-lt}
use kernis.Workflow.Cycle.Spec.{
  IsClosed, Inv, Leaves, Ensures, LoopEnsures, Leaves-Inv, Leaves-refl, LoopEnsures-cons,
}

module _ (t : WorkflowTopology) where
  abbrev VisitEnsures : ℕ → Type 0
  VisitEnsures fuel =
      (v : TextId) (m : Marks) (s : List TextId)
      → Set.contains (task_ids t) v ≡ true
      → Map.get m v ≡ none
      → unmarked m (task_ids t) < fuel
      → Inv t m s
      → IsChain (Edge t) (s ++ v ∷ [])
      → Ensures t v m s (visit t fuel v m s)

  abbrev LoopCall : ℕ → List TextId → List TextId → Type 0
  LoopCall fuel ds s =
      (m : Marks)
      → unmarked m (task_ids t) < fuel
      → Inv t m s
      → LoopEnsures t ds m s (visit_dependencies (visit t fuel) ds m s)

  -- The loop goes on behind a call.
  after_visit :
      (fuel : ℕ) (d : TextId) (ds : List TextId) (m : Marks) (s : List TextId)
      → LoopCall fuel ds s
      → unmarked m (task_ids t) < fuel
      → Inv t m s
      → Map.get m d ≡ none
      → (r : Search) → visit t fuel d m s ≡ r
      → Ensures t d m s r
      → LoopEnsures t (d ∷ ds) m s (visit_dependencies (visit t fuel) (d ∷ ds) m s)
  unfolding visit_dependencies
  after_visit fuel d ds m s loop room inv e (clear m' s') c h =
      rw (e, visit_dependencies)
        (rw c (
          subst (λ z. LoopEnsures t (d ∷ ds) m s (visit_dependencies (visit t fuel) ds m' z))
            (sym h.0.same_stack)
            (LoopEnsures-cons t d ds m m' s _ (subst (λ z. Leaves t m s m' z) h.0.same_stack h.0)
              h.1
              (loop m' (omega (arith, unmarked-le m m' (task_ids t) h.0.extends))
                (Leaves-Inv t m m' s s' inv h.0)))))
  after_visit fuel d ds m s loop room inv e (found p) c h = rw (e, visit_dependencies) (rw c h)
  after_visit fuel d ds m s loop room inv e (stuck x) c h = absurd h

  -- One round of the loop, on the dependency `d` of `v`, by the mark of `d`.
  round-Ensures :
      (fuel : ℕ)
      → IsClosed t
      → VisitEnsures fuel
      → (v d : TextId) (s ds : List TextId) → Edge t v d
      → IsChain (Edge t) (s ++ v ∷ [])
      → LoopCall fuel ds (s ++ v ∷ [])
      → (m : Marks) (o : Option VisitState) → Map.get m d ≡ o
      → unmarked m (task_ids t) < fuel
      → Inv t m (s ++ v ∷ [])
      → LoopEnsures t
          (d ∷ ds)
          m
          (s ++ v ∷ [])
          (visit_dependencies (visit t fuel) (d ∷ ds) m (s ++ v ∷ []))
  unfolding visit_dependencies
  round-Ensures fuel closed recurse v d s ds edge chain loop m none e room inv =
      after_visit fuel d ds m _ loop room inv e _ refl (
        recurse d m (s ++ v ∷ []) (closed v d edge) e room inv
          (IsChain-snoc (Edge t) s v d chain edge))
  round-Ensures fuel closed recurse v d s ds edge chain loop m (some active) e room inv =
      let (n, q, c) =
        position-IsCycle (Edge t) (s ++ v ∷ []) d (inv.on_stack d e)
          (IsChain-snoc (Edge t) s v d chain edge) in
      rw (e, visit_dependencies) (rw (close_cycle, q) c)
  round-Ensures fuel closed recurse v d s ds edge chain loop m (some complete) e room inv =
      rw (e, visit_dependencies)
        (LoopEnsures-cons t d ds m m _ _ (Leaves-refl t m _ inv) e (loop m room inv))

  -- The loop over the dependencies of `v`, which is on top of the stack.
  loop-Ensures :
      (fuel : ℕ)
      → IsClosed t
      → VisitEnsures fuel
      → (v : TextId) (s ds : List TextId) → ((d : TextId) → Set.contains ds d ≡ true → Edge t v d)
      → IsChain (Edge t) (s ++ v ∷ [])
      → LoopCall fuel ds (s ++ v ∷ [])
  unfolding visit_dependencies Set.contains
  loop-Ensures fuel closed recurse v s [] edges chain m room inv =
      (Leaves-refl t m _ inv, λ d e. cc)
  loop-Ensures fuel closed recurse v s (d ∷ ds) edges chain m room inv =
      round-Ensures fuel closed recurse v d s ds (edges d (ground (arith, ==_iff d d))) chain
        (loop-Ensures fuel closed recurse v s ds (λ e c. edges e (ground arith)) chain) m
        (Map.get m d) refl room inv

  leave-Ensures :
      (v : TextId) (m : Marks) (s : List TextId) (r : Search)
      → Map.get m v ≡ none
      → LoopEnsures t (dependencies t v) (Map.insert m v active) (s ++ v ∷ []) r
      → Ensures t v m s (leave v r)
  unfolding leave
  leave-Ensures v m s (clear m' s') e h = (
    record {
      same_stack = rw h.0.same_stack (pop-snoc s v);
      extends = λ u k. ground (
        arith,
        h.0.extends u,
        Map.get-insert m v active u,
        Map.get-insert m' v complete u,
        ==_iff v u,
      );
      finished = λ u k f. ground (
        arith,
        h.0.finished u,
        Map.get-insert m v active u,
        Map.get-insert m' v complete u,
        ==_iff v u,
      );
      grounded = λ u k. elim (Bool-cases (v == u)) [
        | inl same ↦
            subst (Grounded (Edge t)) ((==_iff v u).0 same)
              (Acc.intro v (λ d edge. h.0.grounded d (h.1 d edge)))
        | inr other ↦ h.0.grounded u (ground (arith, Map.get-insert m' v complete u))
      ];
    },
    ground (arith, Map.get-insert m' v complete v, ==_iff v v),
  )
  leave-Ensures v m s (found p) e h = h
  leave-Ensures v m s (stuck x) e h = h

  Inv-push :
      (v : TextId) (m : Marks) (s : List TextId)
      → Inv t m s
      → Inv t (Map.insert m v active) (s ++ v ∷ [])
  unfolding Set.contains
  Inv-push v m s h = record {
    on_stack = λ u e.
        ground (arith, h.on_stack u, Map.get-insert m v active u, Set.contains-append s (v ∷ []) u);
    grounded = λ u e. h.grounded u (ground (arith, Map.get-insert m v active u));
  }

  pub visit-Ensures : IsClosed t → (fuel : ℕ) → VisitEnsures fuel
  unfolding visit
  visit-Ensures closed zero v m s c e room inv chain = absurd (omega arith)
  visit-Ensures closed (suc fuel) v m s c e room inv chain = leave-Ensures v m s _ e (
      loop-Ensures fuel closed (visit-Ensures closed fuel) v s (dependencies t v) (λ d k. k) chain
        (Map.insert m v active) (omega (arith, unmarked-insert-lt m v active (task_ids t) e c))
        (Inv-push v m s inv))
