-- ===== src/Capability/Resolver/Correct.antt =====
-- `resolve` is total, its order is right, its errors are justified, and it decides which graphs
-- have an order.
use kernis.Base.{
  ℕ, suc, ◌≡◌, refl, sym, subst, ◌∙◌, ◌↔◌, true, List, [], ◌∷◌, ◌++◌, arith, Bool-cases, ==_iff,
  length, ok, err, fault, ◌>>=◌,
}
use kernis.Core.{id_ord}
use kernis.BTree.Map
use kernis.BTree.Set
use kernis.BTree.Keys.{contains-keys}
use kernis.Dfs.Path.{IsChain, IsCycle, Grounded-no_cycle}
use kernis.Dfs.Marks.{unmarked-nil}
use kernis.Capability.Definition.{CapabilityId}
use kernis.Capability.Resolver.{
  CapabilityGraph, unknown_capability, missing_dependency, cycle, requirements, Visit, VisitState,
  Fallible, visit_all, resolve, no_visit, ResolvedCapabilityGraph, teardown_order,
}
use kernis.Capability.Resolver.Spec.{
  Requires, registered, IsOrdered, IsJustified, Inv, AllEnsures, AllEnsures-nil,
}
use kernis.Capability.Resolver.Visits.{HasRoom, HasRoom-Leaves, AllEnsures-bind, visit-Ensures}
use kernis.Capability.Resolver.Order.{
  IsTeardown, reverse-IsTeardown, contains-reverse, order-IsSupplied, order-Grounded,
}

module _ (g : CapabilityGraph) where
  -- Between two keys of the loop the path is empty.
  visit_all-Ensures :
      (fuel : ℕ) (cs : List CapabilityId)
      → ((c : CapabilityId) → Set.contains cs c ≡ true → registered g c ≡ true)
      → (v : Visit) → v.active_path ≡ []
      → HasRoom g fuel v
      → Inv g v
      → AllEnsures g cs v (visit_all g.definitions fuel cs v)
  unfolding visit_all Set.contains
  visit_all-Ensures fuel [] r v path room inv = AllEnsures-nil g v inv
  visit_all-Ensures fuel (c ∷ cs) r v path room inv =
      AllEnsures-bind g c cs v _ _
        (visit-Ensures g fuel c v (r c (ground (arith, ==_iff c c))) room inv
          (subst (λ p. IsChain (Requires g) (p ++ c ∷ [])) (sym path) tt))
        (λ v' l.
          visit_all-Ensures fuel cs (λ d k. r d (ground arith)) v' (l.same_path ∙ path)
            (HasRoom-Leaves g fuel v v' room l) l.inv)

  -- All capabilities of the graph, each behind all that it requires, and each once.
  pub record IsResolution (order : List CapabilityId) : Type 0 where
    pub complete : (c : CapabilityId) → Set.contains order c ≡ registered g c
    pub ordered : IsOrdered g [] order

  abbrev pub ResolveEnsures : Fallible ResolvedCapabilityGraph → Type 0
  ResolveEnsures (ok r) = IsResolution r.construction_order
  ResolveEnsures (err e) = IsJustified g e
  ResolveEnsures (fault x) = ⊥

  no_visit-Inv : Inv g no_visit
  unfolding Map.get Set.contains
  no_visit-Inv = record {
    on_path = λ c e. cc;
    built = λ c e. cc;
    settled = λ c e. cc;
    ordered = tt;
  }

  finish :
      (r : Fallible Visit)
      → AllEnsures g (Map.keys g.definitions) no_visit r
      → ResolveEnsures (r >>= λ v. ok (record { construction_order = v.construction_order }))
  finish (ok v) h = record {
    complete = λ c. ground (
      arith,
      Bool-cases (Set.contains v.construction_order c),
      Bool-cases (registered g c),
      h.1 c,
      h.0.inv.built c,
      h.0.inv.settled c,
      contains-keys g.definitions c,
    );
    ordered = h.0.inv.ordered;
  }
  finish (err e) h = h
  finish (fault x) h = h

-- Whatever the graph is, `resolve` returns without a panic: either with an order of all of its
-- capabilities in which each stands once and behind all that it requires, or with an error that
-- names a requirement which is not registered, or a path of requirements that ends where it began.
pub resolve-Ensures : (g : CapabilityGraph) → ResolveEnsures g (resolve g)
unfolding resolve
resolve-Ensures g = finish g _ (
    visit_all-Ensures g (suc (length (Map.keys g.definitions))) (Map.keys g.definitions)
      (λ c e. sym (contains-keys g.definitions c) ∙ e) no_visit refl
      (omega (arith, unmarked-nil VisitState (Map.keys g.definitions))) (no_visit-Inv g))

-- Every requirement is registered.
abbrev pub IsClosed : CapabilityGraph → Type 0
IsClosed g = (c d : CapabilityId) → Requires g c d → registered g d ≡ true

-- No path of requirements ends where it began.
abbrev pub IsAcyclic : CapabilityGraph → Type 0
IsAcyclic g = (p : List CapabilityId) → ¬ IsCycle (Requires g) p

abbrev pub IsResolved : CapabilityGraph → Type 0
IsResolved g = (r : ResolvedCapabilityGraph) × (resolve g ≡ ok r)

Requires-registered :
    (g : CapabilityGraph) (c d : CapabilityId) → Requires g c d → registered g c ≡ true
unfolding requirements Set.contains
Requires-registered g c d h = ground arith

resolve-ok :
    (g : CapabilityGraph) (r : ResolvedCapabilityGraph)
    → resolve g ≡ ok r
    → IsResolution g r.construction_order
resolve-ok g r e = subst (ResolveEnsures g) e (resolve-Ensures g)

pub IsResolution-required :
    (g : CapabilityGraph) (order : List CapabilityId)
    → IsResolution g order
    → (c d : CapabilityId) → Requires g c d
    → Set.contains order d ≡ true
IsResolution-required g order h c d r =
    order-IsSupplied g order h.ordered c d (h.complete c ∙ Requires-registered g c d r) r

resolve_decided :
    (g : CapabilityGraph)
    → IsClosed g
    → IsAcyclic g
    → (r : Fallible ResolvedCapabilityGraph) → resolve g ≡ r
    → ResolveEnsures g r
    → IsResolved g
resolve_decided g closed acyclic (ok r) e h = (r, e)
resolve_decided g closed acyclic (err (unknown_capability c)) e h = absurd h
resolve_decided g closed acyclic (err (missing_dependency c d)) e h = cc (closed c d h.0, h.1)
resolve_decided g closed acyclic (err (cycle p)) e h = absurd (acyclic p h)
resolve_decided g closed acyclic (fault x) e h = absurd h

-- `resolve` accepts exactly the graphs whose requirements are all registered and have no cycle.
pub resolve_iff : (g : CapabilityGraph) → IsResolved g ↔ (IsClosed g × IsAcyclic g)
resolve_iff g = (
  λ (r, e).
      let h = resolve-ok g r e in
      let needed = IsResolution-required g r.construction_order h in
      (
        λ c d q. sym (h.complete d) ∙ needed c d q,
        Grounded-no_cycle (Requires g)
            (λ c d q. order-Grounded g r.construction_order h.ordered d (needed c d q)),
      ),
  λ (closed, acyclic). resolve_decided g closed acyclic _ refl (resolve-Ensures g),
)

-- The teardown order of a resolved graph has all of its capabilities, each once, and when one is
-- torn down nothing that requires it is left.
pub teardown_order-IsTeardown :
    (g : CapabilityGraph) (r : ResolvedCapabilityGraph)
    → resolve g ≡ ok r
    → IsTeardown g (teardown_order r)
      × ((c : CapabilityId) → Set.contains (teardown_order r) c ≡ registered g c)
unfolding teardown_order
teardown_order-IsTeardown g r e =
    let h = resolve-ok g r e in
    (
      reverse-IsTeardown g r.construction_order h.ordered,
      λ c. contains-reverse g r.construction_order c ∙ h.complete c,
    )
