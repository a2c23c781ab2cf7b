-- ===== src/Loader/Resolve/Phases.antt =====
-- crates/runtime-loader/src/resolve.rs: `RuntimeLoader::resolve`, the three phases in their order.
use kernis.Base.{◌≡◌, ◌⊎◌, inl, inr, List, map, ok, err, fault, ◌>>=◌}
use kernis.BTree.Map
use kernis.Loader.Reference.{ModuleReference}
use kernis.Loader.Catalog.{Registration, ModuleCatalog}
use kernis.Loader.Resolve.{Discoveries, collect_roots}
use kernis.Loader.Resolve.Cycles.{Fallible, resolve_graph}
use kernis.Loader.Resolve.Graph.{IsResolved, ResolveEnsures, resolve_graph-Ensures}
use kernis.Loader.Resolve.Construct.{
  ResolvedEntry, construct, construct-Ensures, ConstructEnsures, FactoriesReturn, AllSound, StopsAt,
}
use kernis.Loader.Resolve.Roots.{IsCollected, CollectEnsures, collect_roots-Ensures}

module _ {R : Type 0} (definition : Registration R) (catalog : ModuleCatalog R) where
  -- `RuntimeLoader::resolve`
  unfoldable pub resolve : List ModuleReference → Fallible (List (ResolvedEntry R))
  unfolding collect_roots resolve_graph construct
  resolve roots = collect_roots roots >>= λ rs.
      resolve_graph catalog rs >>= λ resolved. construct definition catalog resolved

  -- What `resolve` answers.
  abbrev pub LoaderEnsures : List ModuleReference → Fallible (List (ResolvedEntry R)) → Type 0
  LoaderEnsures roots (ok es) =
      (rs : List ModuleReference) × IsCollected roots rs
      × (resolved : Discoveries) × IsResolved catalog rs resolved
      × (map (λ e. e.reference) es ≡ Map.keys resolved)
      × AllSound definition catalog es
  LoaderEnsures roots (err e) =
      CollectEnsures roots (err e)
      ⊎ ((rs : List ModuleReference) × IsCollected roots rs × ResolveEnsures catalog rs (err e))
      ⊎ (rs : List ModuleReference) × IsCollected roots rs
        × (resolved : Discoveries) × IsResolved catalog rs resolved
        × StopsAt definition catalog (Map.keys resolved) e
  LoaderEnsures roots (fault x) = ⊥

  third :
      (roots rs : List ModuleReference)
      → IsCollected roots rs
      → (resolved : Discoveries) → IsResolved catalog rs resolved
      → (m : Fallible (List (ResolvedEntry R)))
      → ConstructEnsures definition catalog (Map.keys resolved) m
      → LoaderEnsures roots m
  third roots rs c resolved g (ok es) h = (rs, c, resolved, g, h.0, h.1)
  third roots rs c resolved g (err e) h = inr (inr (rs, c, resolved, g, h))
  third roots rs c resolved g (fault x) h = h

  second :
      FactoriesReturn definition catalog
      → (roots rs : List ModuleReference) → IsCollected roots rs
      → (m : Fallible Discoveries) → ResolveEnsures catalog rs m
      → LoaderEnsures roots (m >>= λ resolved. construct definition catalog resolved)
  second returns roots rs c (ok resolved) h =
      third roots rs c resolved h _ (construct-Ensures definition catalog returns resolved h.known)
  second returns roots rs c (err e) h = inr (inl (rs, c, h))
  second returns roots rs c (fault x) h = absurd h

  first :
      FactoriesReturn definition catalog
      → (roots : List ModuleReference) → (m : Fallible (List ModuleReference))
      → CollectEnsures roots m
      → LoaderEnsures roots (
          m >>= λ rs.
          resolve_graph catalog rs >>= λ resolved. construct definition catalog resolved)
  first returns roots (ok rs) c = second returns roots rs c _ (resolve_graph-Ensures catalog rs)
  first returns roots (err e) c = inl c
  first returns roots (fault x) c = absurd c

  -- Where factories return, `resolve` returns without a panic. Where it succeeds, no root is given
  -- twice, and there is one sound registration for each reference of the acyclic closure of the roots,
  -- in the order of the references. An error is that of the first phase that has one: a root that is
  -- given twice; or, where none is, a missing reference or a cycle; or, where the closure of the roots is
  -- resolved, the first of its references whose factory failed or does not bear its entry out.
  pub resolve-LoaderEnsures :
      FactoriesReturn definition catalog
      → (roots : List ModuleReference) → LoaderEnsures roots (resolve roots)
  unfolding resolve
  resolve-LoaderEnsures returns roots = first returns roots _ (collect_roots-Ensures roots)
