-- ===== src/Loader/Resolve/Cycles/Detect.antt =====
-- `detect_cycles` grounds the roots, or reports a cycle.
use kernis.Base.{
  ℕ, suc, ◌≡◌, refl, subst, sym, ◌∙◌, Bool, true, false, List, [], ◌∷◌, ◌++◌, arith, ==_iff, length,
  ok, err, fault,
}
use kernis.BTree.Map
use kernis.BTree.Map.{Map}
use kernis.BTree.Set
use kernis.Dfs.Path.{IsChain, Grounded}
use kernis.Dfs.Marks.{unmarked-nil}
use kernis.Loader.Reference.{ModuleReference, reference_ord}
use kernis.Loader.Catalog.{ModuleCatalog}
use kernis.Loader.Resolve.{Discoveries}
use kernis.Loader.Resolve.Cycles.{Fallible, Search, visit, visit_roots, detect_cycles}
use kernis.Loader.Resolve.Cycles.Rotate.{Reports}
use kernis.Loader.Resolve.Cycles.Promise.{
  Follows, Inv, Ensures, Ensures-nil, Ensures-bind, HasRoom, HasRoom-Leaves, Leaves-refl,
}
use kernis.Loader.Resolve.Cycles.Visits.{IsKnown, visit-Ensures}

module _ {R : Type 0} (catalog : ModuleCatalog R) (resolved : Discoveries) where
  root-Ensures :
      (fuel : ℕ)
      → IsKnown catalog resolved
      → (r : ModuleReference) (s : Search) → Map.contains_key resolved r ≡ true
      → s.path ≡ []
      → HasRoom catalog resolved fuel s
      → Inv catalog resolved s
      → (b : Bool) → Set.contains s.completed r ≡ b
      → Ensures catalog resolved
          (r ∷ [])
          s
          (elim b [ true ↦ ok s | false ↦ visit catalog resolved fuel r s ])
  unfolding Set.contains
  root-Ensures fuel known r s c path room inv true e =
      (Leaves-refl catalog resolved s inv, λ x k. ground (arith, ==_iff r x))
  root-Ensures fuel known r s c path room inv false e =
      visit-Ensures catalog resolved known fuel r s c room inv
        (subst (λ p. IsChain (Follows catalog resolved) (p ++ r ∷ [])) (sym path) tt)

  visit_roots-Ensures :
      (fuel : ℕ)
      → IsKnown catalog resolved
      → (rs : List ModuleReference)
      → ((r : ModuleReference) → Set.contains rs r ≡ true → Map.contains_key resolved r ≡ true)
      → (s : Search) → s.path ≡ []
      → HasRoom catalog resolved fuel s
      → Inv catalog resolved s
      → Ensures catalog resolved rs s (visit_roots catalog resolved fuel rs s)
  unfolding visit_roots Set.contains
  visit_roots-Ensures fuel known [] h s path room inv = Ensures-nil catalog resolved s inv
  visit_roots-Ensures fuel known (r ∷ rs) h s path room inv =
      Ensures-bind catalog resolved r rs s _ _
        (root-Ensures fuel known r s (h r (ground (arith, ==_iff r r))) path room inv _ refl)
        (λ s' l inv'.
          visit_roots-Ensures fuel known rs (λ x c. h x (ground arith)) s' (l.same_path ∙ path)
            (HasRoom-Leaves catalog resolved fuel s s' room l) inv')
        inv

  -- The roots are grounded, or a cycle is reported.
  abbrev pub DetectEnsures : List ModuleReference → Fallible Search → Type 0
  DetectEnsures roots (ok s) =
      (r : ModuleReference) → Set.contains roots r ≡ true → Grounded (Follows catalog resolved) r
  DetectEnsures roots (err e) = Reports (Follows catalog resolved) {A = Search} (err e)
  DetectEnsures roots (fault x) = ⊥

  detected :
      (roots : List ModuleReference) (s : Search) (m : Fallible Search)
      → Ensures catalog resolved roots s m
      → DetectEnsures roots m
  detected roots s (ok s') h = λ r c. h.0.grounded r (h.1 r c)
  detected roots s (err e) h = h
  detected roots s (fault x) h = h

  pub detect_cycles-Ensures :
      IsKnown catalog resolved
      → (roots : List ModuleReference)
      → ((r : ModuleReference) → Set.contains roots r ≡ true → Map.contains_key resolved r ≡ true)
      → DetectEnsures roots (detect_cycles catalog resolved roots)
  unfolding detect_cycles Set.contains Map.get
  detect_cycles-Ensures known roots h =
      detected roots (record { completed = []; path = []; on_path = [] }) _
        (visit_roots-Ensures (suc (length (Map.keys resolved))) known roots h
          (record { completed = []; path = []; on_path = [] }) refl
          (omega (arith, unmarked-nil ℕ (Map.keys resolved)))
          (record { on_path = λ r n e. cc; grounded = λ r c. cc }))
