-- ===== src/Capability/Resolver/Order.antt =====
-- What a right order says of the graph, and of its reverse.
use mathlib.Core.WellFounded.{Acc}
use mathlib.Core.List.{reverse, reverse_aux}
use kernis.Base.{
  ◌≡◌, refl, sym, subst, ◌∙◌, true, false, ◌||◌, List, [], ◌∷◌, ◌++◌, arith, ==_iff, ◌==◌,
  append_assoc, append-nil, Bool-cases, inl, inr,
}
use kernis.Core.{id_ord}
use kernis.BTree.Set
use kernis.Dfs.Path.{Grounded}
use kernis.Capability.Definition.{CapabilityId}
use kernis.Capability.Resolver.{CapabilityGraph}
use kernis.Capability.Resolver.Spec.{Requires, IsOrdered}

module _ (g : CapabilityGraph) where
  -- The requirements of a list of capabilities are in it.
  abbrev pub IsSupplied : List CapabilityId → Type 0
  IsSupplied cs =
      (c d : CapabilityId) → Set.contains cs c ≡ true → Requires g c d → Set.contains cs d ≡ true

  -- Nothing that requires an element stands behind it, and no element comes twice.
  abbrev pub IsTeardown : List CapabilityId → Type 0
  IsTeardown [] = Unit
  IsTeardown (c ∷ cs) =
      ((u : CapabilityId) → Requires g u c → Set.contains cs u ≡ false)
      × (Set.contains cs c ≡ false)
      × IsTeardown cs

  IsSupplied-snoc :
      (before : List CapabilityId) (c : CapabilityId)
      → IsSupplied before
      → ((d : CapabilityId) → Requires g c d → Set.contains before d ≡ true)
      → IsSupplied (before ++ c ∷ [])
  unfolding Set.contains
  IsSupplied-snoc before c h k u d e r =
      let split = Set.contains-append before (c ∷ []) u in
      let here = Set.contains-append before (c ∷ []) d in
      elim (Bool-cases (c == u)) [
        | inl same ↦ ground (arith, k d (subst (λ z. Requires g z d) (sym ((==_iff c u).0 same)) r))
        | inr other ↦ ground (arith, h u d (ground arith) r)
      ]

  IsOrdered-IsSupplied :
      (before cs : List CapabilityId)
      → IsOrdered g before cs
      → IsSupplied before
      → IsSupplied (before ++ cs)
  IsOrdered-IsSupplied before [] h k = subst IsSupplied (sym (append-nil before)) k
  IsOrdered-IsSupplied before (c ∷ cs) h k =
      subst IsSupplied (append_assoc before (c ∷ []) cs)
        (IsOrdered-IsSupplied (before ++ c ∷ []) cs h.2 (IsSupplied-snoc before c k h.0))

  contains-reverse_aux :
      (cs down : List CapabilityId) (u : CapabilityId)
      → Set.contains (reverse_aux cs down) u ≡ (Set.contains cs u || Set.contains down u)
  unfolding Set.contains
  contains-reverse_aux [] down u = refl
  contains-reverse_aux (c ∷ cs) down u = ground (arith, contains-reverse_aux cs (c ∷ down) u)

  -- `down` has the elements of `before`, in a right order to tear down.
  reverse_aux-IsTeardown :
      (cs down before : List CapabilityId)
      → ((u : CapabilityId) → Set.contains down u ≡ Set.contains before u)
      → IsOrdered g before cs
      → IsSupplied before
      → IsTeardown down
      → IsTeardown (reverse_aux cs down)
  unfolding Set.contains
  reverse_aux-IsTeardown [] down before same h k t = t
  reverse_aux-IsTeardown (c ∷ cs) down before same h k t =
      reverse_aux-IsTeardown cs (c ∷ down) (before ++ c ∷ [])
        (λ u. ground (arith, same u, Set.contains-append before (c ∷ []) u)) h.2
        (IsSupplied-snoc before c k h.0)
        (
          λ u r. ground (arith, Bool-cases (Set.contains down u), k u c, same u, h.1),
          same c ∙ h.1,
          t,
        )

  pub contains-reverse :
      (cs : List CapabilityId) (u : CapabilityId) → Set.contains (reverse cs) u ≡ Set.contains cs u
  unfolding Set.contains
  contains-reverse cs u = ground (arith, contains-reverse_aux cs [] u)

  IsSupplied-nil : IsSupplied []
  unfolding Set.contains
  IsSupplied-nil c d e r = cc

  -- The reverse of a right order to build is a right order to tear down.
  pub reverse-IsTeardown :
      (order : List CapabilityId) → IsOrdered g [] order → IsTeardown (reverse order)
  reverse-IsTeardown order h = reverse_aux-IsTeardown order [] [] (λ u. refl) h IsSupplied-nil tt

  pub order-IsSupplied : (order : List CapabilityId) → IsOrdered g [] order → IsSupplied order
  order-IsSupplied order h = IsOrdered-IsSupplied [] order h IsSupplied-nil

  Grounded-snoc :
      (before : List CapabilityId) (x : CapabilityId)
      → ((c : CapabilityId) → Set.contains before c ≡ true → Grounded (Requires g) c)
      → ((d : CapabilityId) → Requires g x d → Set.contains before d ≡ true)
      → (c : CapabilityId) → Set.contains (before ++ x ∷ []) c ≡ true
      → Grounded (Requires g) c
  unfolding Set.contains
  Grounded-snoc before x h k c e = elim (Bool-cases (x == c)) [
    | inl same ↦
        subst (Grounded (Requires g)) ((==_iff x c).0 same) (Acc.intro x (λ d r. h d (k d r)))
    | inr other ↦ h c (ground (arith, Set.contains-append before (x ∷ []) c))
  ]

  -- Every chain of requirements from an element of a right order ends.
  IsOrdered-Grounded :
      (before cs : List CapabilityId)
      → ((c : CapabilityId) → Set.contains before c ≡ true → Grounded (Requires g) c)
      → IsOrdered g before cs
      → (c : CapabilityId) → Set.contains (before ++ cs) c ≡ true
      → Grounded (Requires g) c
  IsOrdered-Grounded before [] h k c e =
      h c (subst (λ l. Set.contains l c ≡ true) (append-nil before) e)
  IsOrdered-Grounded before (x ∷ cs) h k c e =
      IsOrdered-Grounded (before ++ x ∷ []) cs (Grounded-snoc before x h k.0) k.2 c
        (subst (λ l. Set.contains l c ≡ true) (sym (append_assoc before (x ∷ []) cs)) e)

  pub order-Grounded :
      (order : List CapabilityId)
      → IsOrdered g [] order
      → (c : CapabilityId) → Set.contains order c ≡ true
      → Grounded (Requires g) c
  unfolding Set.contains
  order-Grounded order h = IsOrdered-Grounded [] order (λ c e. cc) h
