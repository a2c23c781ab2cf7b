-- ===== src/Loader/Resolve/Closure.antt =====
-- The closure of the roots: `close` ends, and what it ends with is closed.
use kernis.Base.{
  ℕ, zero, suc, ◌≡◌, ◌<◌, refl, subst, sym, ◌⊎◌, true, ◌||◌, none, List, [], ◌∷◌, arith, is_some,
  ==_iff, inl, inr, Outcome, ok, err, fault, List-cases, length,
}
use kernis.BTree.Map
use kernis.BTree.Map.{Map}
use kernis.BTree.Set
use kernis.Dfs.Marks.{unmarked-nil}
use kernis.Loader.Reference.{ModuleReference, reference_ord}
use kernis.Loader.Error.{LoaderError}
use kernis.Loader.Catalog.{ModuleCatalog, get}
use kernis.Loader.Resolve.{Discovered, Round, explore_all, close, root_frontier, closure}
use kernis.Loader.Resolve.Spec.{Needs, root, AllReached, AllReached-insert}
use kernis.Loader.Resolve.Rounds.{Inv, unresolved, explore_all-Inv, explore_all-Advances}

module _ {R : Type 0} (catalog : ModuleCatalog R) (roots : List ModuleReference) where
  -- What the search ends with: nothing is left to do.
  abbrev pub CloseEnsures : Outcome LoaderError Round → Type 0
  CloseEnsures (ok r) = (r.next ≡ []) × Inv catalog roots [] r
  CloseEnsures (err e) = ⊥
  CloseEnsures (fault x) = ⊥

  -- The frontier is taken out of `next`.
  taken : (r : Round) → Inv catalog roots [] r → Inv catalog roots r.next (record r { next = [] })
  unfolding Map.get
  taken r h = record {
    roots_seen = λ x c. ground (arith, h.roots_seen x c);
    needs_seen = λ x d c n. ground (arith, h.needs_seen x d c n);
    known = h.known;
    unknown = h.unknown;
    resolved_reached = h.resolved_reached;
    missing_reached = h.missing_reached;
    next_reached = tt;
    pending_reached = h.next_reached;
  }

  -- A round is all that is left, or there is fuel for the entries that are not resolved.
  abbrev HasFuel : ℕ → Round → Type 0
  HasFuel fuel r = (r.next ≡ []) ⊎ (unresolved catalog roots r < fuel)

  close-Ensures :
      (fuel : ℕ) (r : Round)
      → HasFuel fuel r
      → Inv catalog roots [] r
      → CloseEnsures (close catalog fuel r)
  unfolding close
  close-Ensures zero r (inl e) h =
      let s : close catalog zero r ≡ ok r = ground arith in subst CloseEnsures (sym s) (e, h)
  close-Ensures zero r (inr room) h = absurd (omega arith)
  close-Ensures (suc fuel) r room h = elim (List-cases r.next) [
    | inl e ↦
        let s : close catalog (suc fuel) r ≡ ok r = ground arith in
        subst CloseEnsures (sym s) (e, h)
    | inr (x, rest, e) ↦
        let r' = explore_all catalog r.next (record r { next = [] }) in
        let s : close catalog (suc fuel) r ≡ close catalog fuel r' = ground arith in
        let advances =
          explore_all-Advances catalog roots (unresolved catalog roots r) r.next
            (record r { next = [] }) (inr (refl, omega arith)) in
        subst CloseEnsures (sym s) (
          close-Ensures fuel r' (ground arith) (explore_all-Inv catalog roots r.next _ (taken r h)))
  ]

  contains_key-root_frontier :
      (rs : List ModuleReference) (x : ModuleReference)
      → Map.contains_key (root_frontier rs) x ≡ Set.contains rs x
  unfolding root_frontier Map.get Set.contains
  contains_key-root_frontier [] x = refl
  contains_key-root_frontier (r ∷ rs) x = ground (
    arith,
    contains_key-root_frontier rs x,
    Map.get-insert (root_frontier rs) r (record { required_by = none; path = r ∷ [] }) x,
  )

  root_frontier-AllReached :
      (rs : List ModuleReference)
      → ((x : ModuleReference) → Set.contains rs x ≡ true → Set.contains roots x ≡ true)
      → AllReached catalog roots (root_frontier rs)
  unfolding root_frontier Set.contains
  root_frontier-AllReached [] h = tt
  root_frontier-AllReached (r ∷ rs) h =
      AllReached-insert catalog roots (root_frontier rs) r _
        (root_frontier-AllReached rs (λ x c. h x (ground arith)))
        (root r (h r (ground (arith, ==_iff r r))))

  -- The closure of the roots: a root and what a resolved reference declares is resolved or missing,
  -- what is resolved has an entry and what is missing has none, and each was reached.
  pub record IsClosure (r : Round) : Type 0 where
    pub roots_in :
        (x : ModuleReference)
        → Set.contains roots x ≡ true
        → (Map.contains_key r.resolved x || Map.contains_key r.missing x) ≡ true
    pub needs_in :
        (x d : ModuleReference)
        → Map.contains_key r.resolved x ≡ true
        → Needs catalog x d
        → (Map.contains_key r.resolved d || Map.contains_key r.missing d) ≡ true
    pub known :
        (x : ModuleReference)
        → Map.contains_key r.resolved x ≡ true
        → is_some (get catalog x) ≡ true
    pub unknown : (x : ModuleReference) → Map.contains_key r.missing x ≡ true → get catalog x ≡ none
    pub resolved_reached : AllReached catalog roots r.resolved
    pub missing_reached : AllReached catalog roots r.missing

  abbrev pub ClosureEnsures : Outcome LoaderError Round → Type 0
  ClosureEnsures (ok r) = IsClosure r
  ClosureEnsures (err e) = ⊥
  ClosureEnsures (fault x) = ⊥

  done : (m : Outcome LoaderError Round) → CloseEnsures m → ClosureEnsures m
  unfolding Map.get
  done (ok r) h = record {
    roots_in = λ x c. ground (arith, h.0, h.1.roots_seen x c);
    needs_in = λ x d c n. ground (arith, h.0, h.1.needs_seen x d c n);
    known = h.1.known;
    unknown = h.1.unknown;
    resolved_reached = h.1.resolved_reached;
    missing_reached = h.1.missing_reached;
  }
  done (err e) h = h
  done (fault x) h = h

  -- The first phase always ends, without an error, with the closure of the roots.
  pub closure-Ensures : ClosureEnsures (closure catalog roots)
  unfolding closure Map.get
  closure-Ensures = done _ (
      close-Ensures (suc (length (Map.keys catalog.entries)))
        (record { resolved = []; missing = []; next = root_frontier roots })
        (inr (omega (arith, unmarked-nil Discovered (Map.keys catalog.entries))))
        (record {
          roots_seen = λ x c. ground (arith, contains_key-root_frontier roots x);
          needs_seen = λ x d c n. cc;
          known = λ x c. cc;
          unknown = λ x c. cc;
          resolved_reached = tt;
          missing_reached = tt;
          next_reached = root_frontier-AllReached roots (λ x c. c);
          pending_reached = tt;
        }))
