-- ===== src/Capability/Resolver/Visits.antt =====
-- `visit` keeps its promise.
use kernis.Base.{
  ℕ, zero, suc, ◌≡◌, ◌<◌, refl, sym, subst, true, Option, none, some, List, [], ◌∷◌, ◌++◌, map,
  arith, Bool-cases, Option-cases, inl, inr, ==_iff, ok, err, fault, ◌>>=◌, ◌∙◌,
}
use kernis.Core.{id_ord}
use kernis.BTree.Map
use kernis.BTree.Set
use kernis.Dfs.Path.{IsChain, IsChain-snoc, position-IsCycle}
use kernis.Dfs.Marks.{unmarked, unmarked-le, unmarked-insert-lt}
use kernis.BTree.Keys.{contains-keys}
use kernis.Capability.Definition.{CapabilityId, CapabilityDefinition, Dependency}
use kernis.Capability.Resolver.{
  CapabilityGraph, requirements, Visit, VisitState, active, done, Fallible, close_cycle, enter,
  leave, visit_dependencies, visit,
}
use kernis.Capability.Resolver.Spec.{
  Requires, registered, Inv, Leaves, Ensures, AllEnsures, Leaves-refl, AllEnsures-nil,
  AllEnsures-cons,
}
use kernis.Capability.Resolver.Leave.{Inv-enter, leave-Ensures}

module _ (g : CapabilityGraph) where
  -- A call, and what is done behind it.
  pub AllEnsures-bind :
      (d : CapabilityId) (ds : List CapabilityId) (v : Visit) (r : Fallible Visit)
      (next : Visit → Fallible Visit)
      → Ensures g d v r
      → ((v' : Visit) → Leaves g v v' → AllEnsures g ds v' (next v'))
      → AllEnsures g (d ∷ ds) v (r >>= next)
  AllEnsures-bind d ds v (ok v') next h k = AllEnsures-cons g d ds v v' _ h.0 h.1 (k v' h.0)
  AllEnsures-bind d ds v (err e) next h k = h
  AllEnsures-bind d ds v (fault x) next h k = absurd h

  -- The call may be made with this fuel.
  abbrev pub HasRoom : ℕ → Visit → Type 0
  HasRoom fuel v = unmarked v.states (Map.keys g.definitions) < fuel

  pub HasRoom-Leaves : (fuel : ℕ) (v v' : Visit) → HasRoom fuel v → Leaves g v v' → HasRoom fuel v'
  HasRoom-Leaves fuel v v' room l =
      omega (arith, unmarked-le v.states v'.states (Map.keys g.definitions) l.extends)

  abbrev pub VisitEnsures : ℕ → Type 0
  VisitEnsures fuel =
      (c : CapabilityId) (v : Visit)
      → registered g c ≡ true
      → HasRoom fuel v
      → Inv g v
      → IsChain (Requires g) (v.active_path ++ c ∷ [])
      → Ensures g c v (visit g.definitions fuel c v)

  abbrev ids : List Dependency → List CapabilityId
  ids = map (λ d. d.id)

  -- The loop over the dependencies of `c`, which is at the end of the path.
  loop-Ensures :
      (fuel : ℕ)
      → VisitEnsures fuel
      → (c : CapabilityId) (s : List CapabilityId) (ds : List Dependency)
      → ((d : CapabilityId) → Set.contains (ids ds) d ≡ true → Requires g c d)
      → IsChain (Requires g) (s ++ c ∷ [])
      → (v : Visit) → v.active_path ≡ s ++ c ∷ []
      → HasRoom fuel v
      → Inv g v
      → AllEnsures g (ids ds) v (visit_dependencies g.definitions (visit g.definitions fuel) c ds v)
  unfolding visit_dependencies Set.contains
  loop-Ensures fuel recurse c s [] requires chain v path room inv = AllEnsures-nil g v inv
  loop-Ensures fuel recurse c s (d ∷ ds) requires chain v path room inv =
      let required = requires d.id (ground (arith, ==_iff d.id d.id)) in
      elim (Bool-cases (registered g d.id)) [
        | inl here ↦
            rw (here, visit_dependencies)
              (AllEnsures-bind d.id (ids ds) v _ _
                (recurse d.id v here room inv (
                  subst (λ p. IsChain (Requires g) (p ++ d.id ∷ [])) (sym path)
                    (IsChain-snoc (Requires g) s c d.id chain required)))
                (λ v' l.
                  loop-Ensures fuel recurse c s ds (λ e k. requires e (ground arith)) chain v'
                    (l.same_path ∙ path) (HasRoom-Leaves fuel v v' room l) l.inv))
        | inr away ↦ rw (away, visit_dependencies) (required, away)
      ]

  requirements-ids :
      (c : CapabilityId) (definition : CapabilityDefinition)
      → Map.get g.definitions c ≡ some definition
      → requirements g c ≡ ids definition.dependencies
  unfolding requirements
  requirements-ids c definition here = ground arith

  HasRoom-enter :
      (fuel : ℕ) (c : CapabilityId) (v : Visit)
      → registered g c ≡ true
      → Map.get v.states c ≡ none
      → HasRoom (suc fuel) v
      → HasRoom fuel (enter c v)
  unfolding enter
  HasRoom-enter fuel c v r e room = omega (
    arith,
    unmarked-insert-lt v.states c active (Map.keys g.definitions) e
        (contains-keys g.definitions c ∙ r),
  )

  -- A call for a capability that was not visited.
  body-Ensures :
      (fuel : ℕ)
      → VisitEnsures fuel
      → (c : CapabilityId) (v : Visit) → registered g c ≡ true
      → HasRoom (suc fuel) v
      → Inv g v
      → IsChain (Requires g) (v.active_path ++ c ∷ [])
      → Map.get v.states c ≡ none
      → (definition : CapabilityDefinition) → Map.get g.definitions c ≡ some definition
      → Ensures g c v (
          visit_dependencies g.definitions
            (visit g.definitions fuel)
            c
            definition.dependencies
            (enter c v)
          >>= λ v'. ok (leave c v'))
  unfolding enter
  body-Ensures fuel recurse c v r room inv chain e definition here =
      let all = sym (requirements-ids c definition here) in
      leave-Ensures g c v r e (ids definition.dependencies) all _ (
        loop-Ensures fuel recurse c v.active_path definition.dependencies
          (λ d k. subst (λ l. Set.contains l d ≡ true) all k) chain (enter c v) refl
          (HasRoom-enter fuel c v r e room) (Inv-enter g c v e inv))

  -- A call by the state of its capability.
  visit_state-Ensures :
      (fuel : ℕ)
      → VisitEnsures fuel
      → (c : CapabilityId) (v : Visit) → registered g c ≡ true
      → HasRoom (suc fuel) v
      → Inv g v
      → IsChain (Requires g) (v.active_path ++ c ∷ [])
      → (o : Option VisitState) → Map.get v.states c ≡ o
      → Ensures g c v (visit g.definitions (suc fuel) c v)
  unfolding visit
  visit_state-Ensures fuel recurse c v r room inv chain (some done) e =
      rw (e, visit) (Leaves-refl g v inv, e)
  visit_state-Ensures fuel recurse c v r room inv chain (some active) e =
      let (n, q, z) = position-IsCycle (Requires g) v.active_path c (inv.on_path c e) chain in
      rw (e, visit) (rw (close_cycle, q) z)
  visit_state-Ensures fuel recurse c v r room inv chain none e =
      elim (Option-cases (Map.get g.definitions c)) [
        | inl away ↦ ground arith
        | inr (definition, here) ↦
            rw (e, here, visit) (body-Ensures fuel recurse c v r room inv chain e definition here)
      ]

  pub visit-Ensures : (fuel : ℕ) → VisitEnsures fuel
  visit-Ensures zero c v r room inv chain = absurd (omega arith)
  visit-Ensures (suc fuel) c v r room inv chain =
      visit_state-Ensures fuel (visit-Ensures fuel) c v r room inv chain (Map.get v.states c) refl
