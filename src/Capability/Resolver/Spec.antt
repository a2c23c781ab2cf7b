-- ===== src/Capability/Resolver/Spec.antt =====
-- What a resolution promises: the order that is right for a graph, and the errors that are.
use kernis.Base.{
  ◌≡◌, ◌≢◌, refl, Bool, true, false, none, some, List, [], ◌∷◌, ◌++◌, arith, ==_iff, ap, sym, ◌∙◌,
  append_assoc, append-nil, ok, err, fault,
}
use kernis.Core.{id_ord}
use kernis.BTree.Map
use kernis.BTree.Set
use kernis.Dfs.Path.{IsCycle}
use kernis.Dfs.Marks.{Extends}
use kernis.Capability.Definition.{CapabilityId}
use kernis.Capability.Resolver.{
  CapabilityGraph, CapabilityGraphError, unknown_capability, missing_dependency, cycle,
  requirements, Visit, active, done, Fallible,
}

module _ (g : CapabilityGraph) where
  -- `Requires c d`: the definition of `c` has the dependency `d`.
  abbrev pub Requires : CapabilityId → CapabilityId → Type 0
  Requires c d = Set.contains (requirements g c) d ≡ true

  abbrev pub registered : CapabilityId → Bool
  registered c = Map.contains_key g.definitions c

  -- Behind `before`, each element is new, and all that it requires stands before it.
  abbrev pub IsOrdered : List CapabilityId → List CapabilityId → Type 0
  IsOrdered before [] = Unit
  IsOrdered before (c ∷ cs) =
      ((d : CapabilityId) → Requires c d → Set.contains before d ≡ true)
      × (Set.contains before c ≡ false)
      × IsOrdered (before ++ c ∷ []) cs

  -- An error names a dependency that is missing, or a cycle.
  abbrev pub IsJustified : CapabilityGraphError → Type 0
  IsJustified (unknown_capability c) = ⊥
  IsJustified (missing_dependency c d) = Requires c d × (registered d ≡ false)
  IsJustified (cycle p) = IsCycle Requires p

  pub record Inv (v : Visit) : Type 0 where
    pub on_path :
        (c : CapabilityId) → Map.get v.states c ≡ some active → Set.contains v.active_path c ≡ true
    pub built :
        (c : CapabilityId)
        → Map.get v.states c ≡ some done
        → Set.contains v.construction_order c ≡ true
    pub settled :
        (c : CapabilityId)
        → Set.contains v.construction_order c ≡ true
        → (Map.get v.states c ≡ some done) × (registered c ≡ true)
    pub ordered : IsOrdered [] v.construction_order

  pub record Leaves (v v' : Visit) : Type 0 where
    pub same_path : v'.active_path ≡ v.active_path
    pub extends : Extends v.states v'.states
    pub finished :
        (c : CapabilityId) → Map.get v.states c ≡ none → Map.get v'.states c ≢ some active
    pub inv : Inv v'

  abbrev pub Ensures : CapabilityId → Visit → Fallible Visit → Type 0
  Ensures c v (ok v') = Leaves v v' × (Map.get v'.states c ≡ some done)
  Ensures c v (err e) = IsJustified e
  Ensures c v (fault x) = ⊥

  abbrev pub AllEnsures : List CapabilityId → Visit → Fallible Visit → Type 0
  AllEnsures ds v (ok v') =
      Leaves v v'
      × ((d : CapabilityId) → Set.contains ds d ≡ true → Map.get v'.states d ≡ some done)
  AllEnsures ds v (err e) = IsJustified e
  AllEnsures ds v (fault x) = ⊥

  pub Leaves-refl : (v : Visit) → Inv v → Leaves v v
  Leaves-refl v h = record {
    same_path = refl;
    extends = λ c e. refl;
    finished = λ c e f. ground arith;
    inv = h;
  }

  pub Leaves-trans : (v v' v'' : Visit) → Leaves v v' → Leaves v' v'' → Leaves v v''
  Leaves-trans v v' v'' h k = record {
    same_path = ground (arith, h.same_path, k.same_path);
    extends = λ c e. ground (arith, h.extends c, k.extends c);
    finished = λ c e f. ground (arith, h.finished c e, k.finished c, k.extends c);
    inv = k.inv;
  }

  pub AllEnsures-nil : (v : Visit) → Inv v → AllEnsures [] v (ok v)
  unfolding Set.contains
  AllEnsures-nil v h = (Leaves-refl v h, λ d c. cc)

  -- One call, and then the rest.
  pub AllEnsures-cons :
      (d : CapabilityId) (ds : List CapabilityId) (v v' : Visit) (r : Fallible Visit)
      → Leaves v v'
      → Map.get v'.states d ≡ some done
      → AllEnsures ds v' r
      → AllEnsures (d ∷ ds) v r
  unfolding Set.contains
  AllEnsures-cons d ds v v' (ok w) l e h =
      (Leaves-trans v v' w l h.0, λ d' c. ground (arith, h.1 d', h.0.extends d, ==_iff d d'))
  AllEnsures-cons d ds v v' (err x) l e h = h
  AllEnsures-cons d ds v v' (fault x) l e h = h

  contains-rest :
      (before cs : List CapabilityId) (x d : CapabilityId)
      → Set.contains ((before ++ x ∷ []) ++ cs) d ≡ Set.contains (before ++ x ∷ cs) d
  contains-rest before cs x d = ap (λ l. Set.contains l d) (append_assoc before (x ∷ []) cs)

  -- A new element whose requirements are there goes behind the order.
  pub IsOrdered-snoc :
      (before cs : List CapabilityId) (c : CapabilityId)
      → IsOrdered before cs
      → ((d : CapabilityId) → Requires c d → Set.contains (before ++ cs) d ≡ true)
      → Set.contains (before ++ cs) c ≡ false
      → IsOrdered before (cs ++ c ∷ [])
  IsOrdered-snoc before [] c h k n =
      (λ d r. rw (sym (append-nil before)) (k d r), rw (sym (append-nil before)) n, tt)
  IsOrdered-snoc before (x ∷ cs) c h k n = (
    h.0,
    h.1,
    IsOrdered-snoc (before ++ x ∷ []) cs c h.2 (λ d r. contains-rest before cs x d ∙ k d r)
        (contains-rest before cs x c ∙ n),
  )
