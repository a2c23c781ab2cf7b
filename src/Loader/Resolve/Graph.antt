-- ===== src/Loader/Resolve/Graph.antt =====
-- `resolve_graph`: the closure of the roots, or why there is none.
use mathlib.Core.WellFounded.{Acc}
use kernis.Base.{
  ◌≡◌, refl, subst, true, none, some, List, [], ◌∷◌, arith, is_some, ==_iff, Option-cases, inl, inr,
  ok, err, fault, ◌>>=◌,
}
use kernis.BTree.Map
use kernis.BTree.Map.{Map}
use kernis.BTree.Set
use kernis.Dfs.Path.{IsChain, IsCycle, Grounded, Grounded-no_cycle}
use kernis.Loader.Reference.{ModuleReference, reference_ord}
use kernis.Loader.Error.{dependency_cycle, missing_reference}
use kernis.Loader.Catalog.{ModuleCatalog, get}
use kernis.Loader.Resolve.{Discovered, Discoveries, Round}
use kernis.Loader.Resolve.Spec.{Needs, Reached, root, step, AllReached, AllReached-get}
use kernis.Loader.Resolve.Closure.{IsClosure, ClosureEnsures, closure-Ensures}
use kernis.Loader.Resolve.Cycles.{Fallible, Search, check_closure, resolve_graph}
use kernis.Loader.Resolve.Cycles.Promise.{Follows}
use kernis.Loader.Resolve.Cycles.Detect.{DetectEnsures, detect_cycles-Ensures}

module _ {R : Type 0} (catalog : ModuleCatalog R) (roots : List ModuleReference) where
  -- The roots and all that they need are resolved and have entries, nothing else is resolved, and no
  -- path of dependencies ends where it began.
  pub record IsResolved (resolved : Discoveries) : Type 0 where
    pub roots_in :
        (x : ModuleReference) → Set.contains roots x ≡ true → Map.contains_key resolved x ≡ true
    pub needs_in :
        (x d : ModuleReference)
        → Map.contains_key resolved x ≡ true
        → Needs catalog x d
        → Map.contains_key resolved d ≡ true
    pub known :
        (x : ModuleReference) → Map.contains_key resolved x ≡ true → is_some (get catalog x) ≡ true
    pub reached :
        (x : ModuleReference) (discovery : Discovered)
        → Map.get resolved x ≡ some discovery
        → Reached catalog roots x discovery
    pub acyclic : (p : List ModuleReference) → ¬ IsCycle (Follows catalog resolved) p

  -- What `resolve_graph` answers.
  abbrev pub ResolveEnsures : Fallible Discoveries → Type 0
  ResolveEnsures (ok resolved) = IsResolved resolved
  ResolveEnsures (err (missing_reference requested required_by path)) =
      (get catalog requested ≡ none)
      × Reached catalog roots requested (record { required_by = required_by; path = path })
  ResolveEnsures (err (dependency_cycle p)) = IsCycle (Needs catalog) p
  ResolveEnsures _ = ⊥

  forget :
      (resolved : Discoveries) (p : List ModuleReference)
      → IsChain (Follows catalog resolved) p
      → IsChain (Needs catalog) p
  forget resolved [] h = tt
  forget resolved (x ∷ []) h = tt
  forget resolved (x ∷ y ∷ p) h = (h.0.0, forget resolved (y ∷ p) h.1)

  -- What was reached is resolved, and grounded as the roots are.
  Reached-Grounded :
      (r : Round)
      → IsClosure catalog roots r
      → r.missing ≡ []
      → ((x : ModuleReference)
          → Set.contains roots x ≡ true
          → Grounded (Follows catalog r.resolved) x)
      → (x : ModuleReference) (discovery : Discovered) → Reached catalog roots x discovery
      → (Map.contains_key r.resolved x ≡ true) × Grounded (Follows catalog r.resolved) x
  unfolding Map.get
  Reached-Grounded r h none_missing g _ _ (root x c) =
      (ground (arith, h.roots_in x c, none_missing), g x c)
  Reached-Grounded r h none_missing g _ _ (step q d discovery k needs) =
      let (there, a) = Reached-Grounded r h none_missing g q discovery k in
      let here : Map.contains_key r.resolved d ≡ true =
        ground (arith, h.needs_in q d there needs, none_missing) in
      (here, below q d needs here a)
    where
      below :
          (q d : ModuleReference)
          → Needs catalog q d
          → Map.contains_key r.resolved d ≡ true
          → Grounded (Follows catalog r.resolved) q
          → Grounded (Follows catalog r.resolved) d
      below q d needs here (Acc.intro _ a) = a d (needs, here)

  -- Nothing is missing, and the search for a cycle has ended.
  detected-Ensures :
      (r : Round)
      → IsClosure catalog roots r
      → r.missing ≡ []
      → (m : Fallible Search) → DetectEnsures catalog r.resolved roots m
      → ResolveEnsures (m >>= λ _. ok r.resolved)
  unfolding Map.get
  detected-Ensures r h none_missing (ok s) g = record {
    roots_in = λ x c. ground (arith, h.roots_in x c, none_missing);
    needs_in = λ x d c n. ground (arith, h.needs_in x d c n, none_missing);
    known = h.known;
    reached =
        λ x discovery e. AllReached-get catalog roots r.resolved x discovery h.resolved_reached e;
    acyclic = Grounded-no_cycle (Follows catalog r.resolved) (λ v d f.
        elim (Option-cases (Map.get r.resolved d)) [
          | inl away ↦ absurd (ground (arith, f.1))
          | inr (discovery, e) ↦
              (Reached-Grounded r h none_missing g d discovery
                (AllReached-get catalog roots r.resolved d discovery h.resolved_reached e)).1
        ]);
  }
  detected-Ensures r h none_missing (err (dependency_cycle p)) g = record {
    start = g.start;
    rest = g.rest;
    closes = g.closes;
    chain = forget r.resolved p g.chain;
  }
  detected-Ensures r h none_missing (err _) g = absurd g
  detected-Ensures r h none_missing (fault x) g = absurd g

  closed-Ensures :
      (r : Round)
      → IsClosure catalog roots r
      → (m : Discoveries) → r.missing ≡ m
      → ResolveEnsures (check_closure catalog roots r)
  unfolding check_closure Map.get
  closed-Ensures r h [] e =
      rw (e, check_closure)
        (detected-Ensures r h e _ (
          detect_cycles-Ensures catalog r.resolved h.known roots
            (λ x c. ground (arith, h.roots_in x c, e))))
  closed-Ensures r h ((requested, discovery) ∷ rest) e =
      rw (e, check_closure)
        (
          h.unknown requested (ground (arith, ==_iff requested requested, e)),
          (subst (AllReached catalog roots) e h.missing_reached).0,
        )

  then_check :
      (m : Fallible Round)
      → ClosureEnsures catalog roots m
      → ResolveEnsures (m >>= check_closure catalog roots)
  then_check (ok r) h = closed-Ensures r h r.missing refl
  then_check (err e) h = absurd h
  then_check (fault x) h = absurd h

-- `resolve_graph` always returns, without a panic. Where it succeeds, the roots and all that the
-- resolved references declare are resolved and have entries, each resolved reference was reached
-- from a root along declared dependencies, as its record says, and no path of them is a cycle. An
-- error names a reference without an entry, with the path on which it was reached from a root, or a
-- cycle of declared dependencies.
pub resolve_graph-Ensures :
    {R : Type 0} (catalog : ModuleCatalog R) (roots : List ModuleReference)
    → ResolveEnsures catalog roots (resolve_graph catalog roots)
unfolding resolve_graph
resolve_graph-Ensures catalog roots = then_check catalog roots _ (closure-Ensures catalog roots)
