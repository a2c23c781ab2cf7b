-- ===== src/Capability/Resolver/Leave.antt =====
-- `visit` before and behind its loop.
use kernis.Base.{
  ◌≡◌, sym, subst, true, none, some, List, [], ◌∷◌, ◌++◌, arith, Bool-cases, ==_iff, pop, pop-snoc,
  ok, err, fault, ◌>>=◌,
}
use kernis.Core.{id_ord}
use kernis.BTree.Map
use kernis.BTree.Set
use kernis.Capability.Definition.{CapabilityId}
use kernis.Capability.Resolver.{
  CapabilityGraph, requirements, Visit, active, done, Fallible, enter, leave,
}
use kernis.Capability.Resolver.Spec.{
  Requires, registered, Inv, Leaves, Ensures, AllEnsures, IsOrdered-snoc,
}

module _ (g : CapabilityGraph) where
  pub Inv-enter :
      (c : CapabilityId) (v : Visit) → Map.get v.states c ≡ none → Inv g v → Inv g (enter c v)
  unfolding enter Set.contains
  Inv-enter c v e h = record {
    on_path = λ u k. ground (
      arith,
      h.on_path u,
      Map.get-insert v.states c active u,
      Set.contains-append v.active_path (c ∷ []) u,
    );
    built = λ u k. h.built u (ground (arith, Map.get-insert v.states c active u));
    settled = λ u k. ground (arith, h.settled u k, Map.get-insert v.states c active u, ==_iff c u);
    ordered = h.ordered;
  }

  -- The capability is built when all that it requires is.
  leave-Inv :
      (c : CapabilityId) (v v' : Visit)
      → registered g c ≡ true
      → Map.get v.states c ≡ none
      → Leaves g (enter c v) v'
      → ((d : CapabilityId) → Requires g c d → Map.get v'.states d ≡ some done)
      → Inv g (leave c v')
  unfolding enter leave Set.contains
  leave-Inv c v v' r e l all = record {
    on_path = λ u k.
        let there : Set.contains (v.active_path ++ c ∷ []) u ≡ true =
          subst (λ p. Set.contains p u ≡ true) l.same_path
            (l.inv.on_path u (ground (arith, Map.get-insert v'.states c done u))) in
        let rest : pop v'.active_path ≡ v.active_path = rw l.same_path (pop-snoc v.active_path c) in
        subst (λ p. Set.contains p u ≡ true) (sym rest)
          (ground (
            arith,
            Set.contains-append v.active_path (c ∷ []) u,
            Map.get-insert v'.states c done u,
          ));
    built = λ u k. ground (
      arith,
      l.inv.built u,
      Map.get-insert v'.states c done u,
      Set.contains-append v'.construction_order (c ∷ []) u,
    );
    settled = λ u k. ground (
      arith,
      l.inv.settled u,
      Map.get-insert v'.states c done u,
      Set.contains-append v'.construction_order (c ∷ []) u,
      ==_iff c u,
    );
    ordered =
        IsOrdered-snoc g [] v'.construction_order c l.inv.ordered (λ d q. l.inv.built d (all d q))
          (ground (
            arith,
            Bool-cases (Set.contains v'.construction_order c),
            l.inv.settled c,
            l.extends c,
            Map.get-insert v.states c active c,
            ==_iff c c,
          ));
  }

  pub leave-Ensures :
      (c : CapabilityId) (v : Visit)
      → registered g c ≡ true
      → Map.get v.states c ≡ none
      → (ds : List CapabilityId) → ds ≡ requirements g c
      → (r : Fallible Visit) → AllEnsures g ds (enter c v) r
      → Ensures g c v (r >>= λ v'. ok (leave c v'))
  unfolding enter leave
  leave-Ensures c v r e ds all (ok v') h = (
    record {
      same_path = rw h.0.same_path (pop-snoc v.active_path c);
      extends = λ u k. ground (
        arith,
        h.0.extends u,
        Map.get-insert v.states c active u,
        Map.get-insert v'.states c done u,
        ==_iff c u,
      );
      finished = λ u k f. ground (
        arith,
        h.0.finished u,
        Map.get-insert v.states c active u,
        Map.get-insert v'.states c done u,
        ==_iff c u,
      );
      inv =
          leave-Inv c v v' r e h.0
            (λ d q. h.1 d (subst (λ l. Set.contains l d ≡ true) (sym all) q));
    },
    ground (arith, Map.get-insert v'.states c done c, ==_iff c c),
  )
  leave-Ensures c v r e ds all (err x) h = h
  leave-Ensures c v r e ds all (fault x) h = absurd h
