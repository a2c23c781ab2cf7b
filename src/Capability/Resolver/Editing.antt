-- ===== src/Capability/Resolver/Editing.antt =====
-- What `require` and `validate_candidate` do to a graph.
use kernis.Base.{
  ℕ, ◌≡◌, refl, sym, subst, true, false, ◌||◌, ◌&&◌, Option, none, some, List, [], ◌∷◌, map, arith,
  Bool-cases, inl, inr, ==_iff, ◌==◌, ok, err, fault, ◌>>=◌,
}
use kernis.Core.{id_ord, cmp_id-IsLawful}
use kernis.BTree.Map
use kernis.BTree.Set
use kernis.Capability.Definition.{
  CapabilityId, CapabilityDefinition, Dependency, add_dependency, dependency_ord,
}
use kernis.Capability.Resolver.{
  CapabilityGraph, unknown_capability, missing_dependency, cycle, requirements, Fallible,
  ResolvedCapabilityGraph, require, insert, validate_candidate, ValidatedCapabilityDefinition,
}
use kernis.Capability.Resolver.Spec.{registered, IsOrdered, IsJustified}
use kernis.Capability.Resolver.Correct.{ResolveEnsures, resolve-Ensures, IsResolution-required}

-- The definition of a capability but for what it requires.
abbrev pub described : CapabilityGraph → CapabilityId → Option (CapabilityId × List ℕ × List ℕ)
described g c = elim (Map.get g.definitions c) [
  | none ↦ none
  | some definition ↦ some (definition.id, definition.kind, definition.replay_identity)
]

module _ (g : CapabilityGraph) (consumer dependency : CapabilityId) where
  -- What `require` leaves behind, by its result.
  abbrev pub RequireEnsures : Fallible (Unit {0}) × CapabilityGraph → Type 0
  RequireEnsures (ok _, g') =
      (registered g consumer ≡ true)
      × (registered g dependency ≡ true)
      × ((c : CapabilityId) → registered g' c ≡ registered g c)
      × ((c d : CapabilityId)
          → Set.contains (requirements g' c) d
            ≡ (consumer == c && dependency == d || Set.contains (requirements g c) d))
      × ((c : CapabilityId) → described g' c ≡ described g c)
      × ((c : CapabilityId)
          → (consumer ≡ c → ⊥)
          → Map.get g'.definitions c ≡ Map.get g.definitions c)
  RequireEnsures (err (unknown_capability c), g') =
      (c ≡ consumer) × (registered g consumer ≡ false) × (g' ≡ g)
  RequireEnsures (err (missing_dependency c d), g') =
      (c ≡ consumer)
      × (d ≡ dependency)
      × (registered g consumer ≡ true)
      × (registered g dependency ≡ false)
      × (g' ≡ g)
  RequireEnsures (err (cycle p), g') = ⊥
  RequireEnsures (fault x, g') = ⊥

abbrev pub ids : List Dependency → List CapabilityId
ids = map (λ d. d.id)

pub contains-ids :
    (ds : List Dependency) (x d : CapabilityId)
    → Set.contains (ids (Set.insert ds (record { id = x }))) d ≡ (x == d || Set.contains (ids ds) d)
unfolding Set.contains Set.insert dependency_ord
contains-ids [] x d = refl
contains-ids (y ∷ ds) x d =
    ground (arith, contains-ids ds x d, cmp_id-IsLawful.eq_of_cmp x y.id, ==_iff x d, ==_iff y.id d)

-- The graph in which the consumer has one more dependency.
abbrev linked : CapabilityGraph → CapabilityId → CapabilityId → CapabilityGraph
linked g consumer dependency = record {
  definitions = Map.update g.definitions consumer (λ c. add_dependency c dependency);
}

registered-update :
    (g : CapabilityGraph) (consumer dependency c : CapabilityId)
    → registered (linked g consumer dependency) c ≡ registered g c
registered-update g consumer dependency c =
    ground (arith, Map.get-update g.definitions consumer (λ c. add_dependency c dependency) c)

requirements-update :
    (g : CapabilityGraph) (consumer dependency : CapabilityId)
    → registered g consumer ≡ true
    → (c d : CapabilityId)
    → Set.contains (requirements (linked g consumer dependency) c) d
      ≡ (consumer == c && dependency == d || Set.contains (requirements g c) d)
unfolding requirements add_dependency
requirements-update g consumer dependency here c d = go (Map.get g.definitions c) refl
  where
    go :
        (o : Option CapabilityDefinition)
        → Map.get g.definitions c ≡ o
        → Set.contains (requirements (linked g consumer dependency) c) d
          ≡ (consumer == c && dependency == d || Set.contains (requirements g c) d)
    go none e = ground (
      arith,
      Map.get-update g.definitions consumer (λ c. add_dependency c dependency) c,
      ==_iff consumer c,
    )
    go (some definition) e = ground (
      arith,
      Map.get-update g.definitions consumer (λ c. add_dependency c dependency) c,
      contains-ids definition.dependencies dependency d,
    )

described-update :
    (g : CapabilityGraph) (consumer dependency c : CapabilityId)
    → described (linked g consumer dependency) c ≡ described g c
unfolding add_dependency
described-update g consumer dependency c =
    ground (arith, Map.get-update g.definitions consumer (λ c. add_dependency c dependency) c)

-- Where both capabilities are registered, `require` adds the one requirement and no other, registers
-- and removes no capability, keeps the identifier, the kind and the replay identity of each, and
-- leaves the definitions of all but the consumer as they are. Where one is not registered it says
-- which, the consumer first, and leaves the graph alone.
pub require-Ensures :
    (g : CapabilityGraph) (consumer dependency : CapabilityId)
    → RequireEnsures g consumer dependency (require g consumer dependency)
unfolding require
require-Ensures g consumer dependency = elim (Bool-cases (registered g consumer)) [
  | inr away ↦ rw (away, require) (refl, away, refl)
  | inl here ↦ elim (Bool-cases (registered g dependency)) [
    | inr away ↦ rw (here, require) (rw (away, require) (refl, refl, here, away, refl))
    | inl there ↦
        rw (here, require)
          (rw (there, require)
            (
              here,
              there,
              registered-update g consumer dependency,
              requirements-update g consumer dependency here,
              described-update g consumer dependency,
              λ c other. ground (
                arith,
                Map.get-update g.definitions consumer (λ c. add_dependency c dependency) c,
                ==_iff consumer c,
              ),
            ))
  ]
]

module _ (g : CapabilityGraph) (candidate : CapabilityDefinition) where
  -- What `validate_candidate` answers: a proof for the candidate, in whose order it stands, as do all
  -- that it depends on and all that were in the graph; or why the graph with it has no order.
  abbrev pub ValidateEnsures : Fallible ValidatedCapabilityDefinition → Type 0
  ValidateEnsures (ok v) =
      let order = v.resolution.construction_order in
      (v.definition ≡ candidate)
      × IsOrdered (insert g candidate).1 [] order
      × (Set.contains order candidate.id ≡ true)
      × ((d : CapabilityId)
          → Set.contains (ids candidate.dependencies) d ≡ true
          → Set.contains order d ≡ true)
      × ((c : CapabilityId) → registered g c ≡ true → Set.contains order c ≡ true)
  ValidateEnsures (err e) = IsJustified (insert g candidate).1 e
  ValidateEnsures (fault x) = ⊥

  requirements-insert :
      requirements (insert g candidate).1 candidate.id ≡ ids candidate.dependencies
  unfolding requirements insert
  requirements-insert = ground (
    arith,
    Map.get-insert g.definitions candidate.id candidate candidate.id,
    ==_iff candidate.id candidate.id,
  )

  registered-insert :
      (c : CapabilityId)
      → registered (insert g candidate).1 c ≡ (candidate.id == c || registered g c)
  unfolding insert
  registered-insert c = ground (arith, Map.get-insert g.definitions candidate.id candidate c)

  validated :
      (r : Fallible ResolvedCapabilityGraph)
      → ResolveEnsures (insert g candidate).1 r
      → ValidateEnsures
          (r >>= λ resolution. ok (record { definition = candidate; resolution = resolution }))
  validated (ok r) h = (
    refl,
    h.ordered,
    ground (
      arith,
      h.complete candidate.id,
      registered-insert candidate.id,
      ==_iff candidate.id candidate.id,
    ),
    λ d q.
        IsResolution-required (insert g candidate).1 r.construction_order h candidate.id d
          (subst (λ l. Set.contains l d ≡ true) (sym requirements-insert) q),
    λ c q. ground (arith, h.complete c, registered-insert c),
  )
  validated (err e) h = h
  validated (fault x) h = h

-- `validate_candidate` never panics. Where it admits a candidate, the order of its proof has the
-- candidate, all that it depends on and all that were registered, each behind what it requires;
-- where it does not, its error is a missing requirement or a cycle of the graph with the candidate.
pub validate_candidate-Ensures :
    (g : CapabilityGraph) (candidate : CapabilityDefinition)
    → ValidateEnsures g candidate (validate_candidate g candidate)
unfolding validate_candidate
validate_candidate-Ensures g candidate =
    validated g candidate _ (resolve-Ensures (insert g candidate).1)
