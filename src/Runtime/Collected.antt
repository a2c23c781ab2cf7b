-- ===== src/Runtime/Collected.antt =====
-- The maps of tasks and of capabilities that a definition is validated with.
use kernis.Base.{
  codes, ◌≡◌, ◌↔◌, refl, sym, subst, true, false, none, some, List, [], ◌∷◌, ok, err, fault, ==_iff,
  arith, Bool-cases, Option-cases, inl, inr, cmp_text-IsLawful, if◌then◌else◌,
}
use kernis.Core.{TextId, id_ord}
use kernis.BTree.Map
use kernis.BTree.Map.{Map}
use kernis.BTree.Set
use kernis.Recovery.Durable.Index.{unique, keys_of}
use kernis.Recovery.Durable.Keeps.{Extends, same_entries}
use kernis.Runtime.Definition.{
  CapabilityRequirement, CapabilityDeclaration, TaskDefinition, capability_identity_mismatch,
  Fallible, Tasks, Capabilities, same_identity, implicit, insert_tasks, insert_capabilities,
  materialize,
}
use kernis.Runtime.Validation.{Each}

-- A computation that is no panic, and returns what the condition asks for unless nothing does.
abbrev pub Judges : {A : Type 0} → (A → Type 0) → Fallible A → Type 0
Judges P (ok a) = P a
Judges {A = A} P (err e) = (a : A) → ¬ P a
Judges P (fault f) = ⊥

module _ {V : Type 0} (key : V → TextId) where
  -- The values of a list, each under its key.
  abbrev pub collect : List V → Map TextId V → Map TextId V
  collect [] m = m
  collect (v ∷ vs) m = collect vs (Map.insert m (key v) v)

  -- The keys are distinct, and not in the map.
  abbrev pub AreNew : List V → Map TextId V → Type 0
  AreNew vs m =
      (unique (keys_of key vs) ≡ true)
      × ((k : TextId) → Set.contains (keys_of key vs) k ≡ true → Map.contains_key m k ≡ false)

  pub AreNew-insert :
      (v : V) (vs : List V) (m : Map TextId V)
      → Map.contains_key m (key v) ≡ false
      → AreNew vs (Map.insert m (key v) v) ↔ AreNew (v ∷ vs) m
  unfolding Set.contains
  AreNew-insert v vs m new = (
    λ h. (
      ground (
        arith,
        h.0,
        h.1 (key v),
        Map.get-insert m (key v) v (key v),
        ==_iff (key v) (key v),
        Bool-cases (Set.contains (keys_of key vs) (key v)),
      ),
      λ k c. ground (
        arith,
        h.1 k,
        Map.get-insert m (key v) v k,
        ==_iff (key v) k,
        Bool-cases (Set.contains (keys_of key vs) k),
      ),
    ),
    λ h. (
      ground (arith, h.0),
      λ k c. ground (arith, h.0, h.1 k, Map.get-insert m (key v) v k, ==_iff (key v) k),
    ),
  )

  AreNew-head :
      (v : V) (vs : List V) (m : Map TextId V)
      → Map.contains_key m (key v) ≡ true
      → ¬ AreNew (v ∷ vs) m
  unfolding Set.contains
  AreNew-head v vs m found h = ground (arith, h.1 (key v), ==_iff (key v) (key v))

  -- The map is made of the list, whose keys are distinct.
  abbrev pub IsCollected : List V → Map TextId V → Map TextId V → Type 0
  IsCollected vs m n = (n ≡ collect vs m) × AreNew vs m

  IsCollected-insert :
      (v : V) (vs : List V) (m : Map TextId V) (r : Fallible (Map TextId V))
      → Map.contains_key m (key v) ≡ false
      → Judges (IsCollected vs (Map.insert m (key v) v)) r
      → Judges (IsCollected (v ∷ vs) m) r
  IsCollected-insert v vs m (ok n) new h = (h.0, (AreNew-insert v vs m new).0 h.1)
  IsCollected-insert v vs m (err _) new h = λ n k. h n (k.0, (AreNew-insert v vs m new).1 k.1)
  IsCollected-insert v vs m (fault _) new h = absurd h

pub insert_tasks-Judges :
    (rest : List TaskDefinition) (tasks : Tasks)
    → Judges (IsCollected (λ t. t.id) rest tasks) (insert_tasks rest tasks)
unfolding insert_tasks Set.contains
insert_tasks-Judges [] tasks = (refl, (refl, λ k c. cc))
insert_tasks-Judges (t ∷ rest) tasks = elim (Bool-cases (Map.contains_key tasks t.id)) [
  | inl found ↦ rw (found) (λ n h. AreNew-head (λ u. u.id) t rest tasks found h.1)
  | inr new ↦
      let more =
        IsCollected-insert (λ u. u.id) t rest tasks _ new
          (insert_tasks-Judges rest (Map.insert tasks t.id t)) in
      rw (new) more
]

pub insert_capabilities-Judges :
    (rest : List CapabilityDeclaration) (m : Capabilities)
    → Judges (IsCollected (λ c. c.id) rest m) (insert_capabilities rest m)
unfolding insert_capabilities Set.contains
insert_capabilities-Judges [] m = (refl, (refl, λ k c. cc))
insert_capabilities-Judges (c ∷ rest) m = elim (Bool-cases (Map.contains_key m c.id)) [
  | inl found ↦ rw (found) (λ n h. AreNew-head (λ u. u.id) c rest m found h.1)
  | inr new ↦
      let more =
        IsCollected-insert (λ u. u.id) c rest m _ new
          (insert_capabilities-Judges rest (Map.insert m c.id c)) in
      rw (new) more
]

-- The requirement is met by a capability of the same identity.
abbrev pub Supplies : Capabilities → CapabilityRequirement → Type 0
Supplies m r =
    (c : CapabilityDeclaration) × ((Map.get m r.capability_id ≡ some c)
      × (c.definition_identity ≡ r.definition_identity))

-- A capability that is required and not declared: it has the identity that is required, the kind
-- "capability", and depends on nothing.
abbrev pub undeclared : CapabilityRequirement → CapabilityDeclaration
undeclared r = record {
  id = r.capability_id;
  kind = codes "capability";
  definition_identity = r.definition_identity;
  dependencies = [];
}

-- The map with such a capability for each that is required and missing.
abbrev pub supply : CapabilityRequirement → Capabilities → Capabilities
supply r m =
    if Map.contains_key m r.capability_id then m else Map.insert m r.capability_id (undeclared r)

abbrev pub supplement : List CapabilityRequirement → Capabilities → Capabilities
supplement [] m = m
supplement (r ∷ rs) m = supplement rs (supply r m)

supply-Extends : (r : CapabilityRequirement) (m : Capabilities) → Extends m (supply r m)
supply-Extends r m k c e =
    ground (arith, e, Map.get-insert m r.capability_id (undeclared r) k, ==_iff r.capability_id k)

supplement-Extends :
    (rs : List CapabilityRequirement) (m : Capabilities) → Extends m (supplement rs m)
supplement-Extends [] m = same_entries m
supplement-Extends (r ∷ rs) m =
    λ k c e. supplement-Extends rs (supply r m) k c (supply-Extends r m k c e)

abbrev pub IsSupplemented : List CapabilityRequirement → Capabilities → Capabilities → Type 0
IsSupplemented rs m n = (n ≡ supplement rs m) × Each (Supplies n) rs

-- A requirement is met in the map that it was supplied in, and so in every larger one.
supply-Supplies :
    (r : CapabilityRequirement) (m n : Capabilities)
    → Map.get m r.capability_id ≡ none
    → Extends (supply r m) n
    → Supplies n r
supply-Supplies r m n absent kept = (
  undeclared r,
  (
    kept r.capability_id (undeclared r) (
        ground (
          arith,
          Map.get-insert m r.capability_id (undeclared r) r.capability_id,
          ==_iff r.capability_id r.capability_id,
        )),
    refl,
  ),
)

IsSupplemented-supply :
    (r : CapabilityRequirement) (rs : List CapabilityRequirement) (m : Capabilities)
    (result : Fallible Capabilities)
    → ((n : Capabilities) → Extends (supply r m) n → Supplies n r)
    → Judges (IsSupplemented rs (supply r m)) result
    → Judges (IsSupplemented (r ∷ rs) m) result
IsSupplemented-supply r rs m (ok n) met h = (
  h.0,
  (met n (subst (Extends (supply r m)) (sym h.0) (supplement-Extends rs (supply r m))), h.1),
)
IsSupplemented-supply r rs m (err _) met h = λ n k. h n (k.0, k.1.1)
IsSupplemented-supply r rs m (fault _) met h = absurd h

mismatch :
    (r : CapabilityRequirement) (rs : List CapabilityRequirement) (m n : Capabilities)
    (c : CapabilityDeclaration)
    → Map.get m r.capability_id ≡ some c
    → same_identity c.definition_identity r.definition_identity ≡ false
    → ¬ IsSupplemented (r ∷ rs) m n
mismatch r rs m n c found other h =
    let (d, (at_n, same)) = h.1.0 in
    let kept : Map.get n r.capability_id ≡ some c =
      subst (λ k. Map.get k r.capability_id ≡ some c) (sym h.0)
        (supplement-Extends (r ∷ rs) m r.capability_id c found) in
    ground (arith, kept, at_n, same, other, cmp_text-IsLawful.cmp_refl c.definition_identity.value)

pub materialize-Judges :
    (rs : List CapabilityRequirement) (m : Capabilities)
    → Judges (IsSupplemented rs m) (materialize rs m)
unfolding materialize implicit
materialize-Judges [] m = (refl, tt)
materialize-Judges (r ∷ rs) m = elim (Option-cases (Map.get m r.capability_id)) [
  | inl absent ↦
      let step : materialize (r ∷ rs) m ≡ materialize rs (supply r m) = ground arith in
      subst (Judges (IsSupplemented (r ∷ rs) m)) (sym step) (
        IsSupplemented-supply r rs m _ (λ n. supply-Supplies r m n absent)
          (materialize-Judges rs (supply r m)))
  | inr (c, found) ↦ elim (Bool-cases (same_identity c.definition_identity r.definition_identity)) [
    | inl same ↦
        let unchanged : supply r m ≡ m = ground arith in
        let step : materialize (r ∷ rs) m ≡ materialize rs (supply r m) = ground arith in
        subst (Judges (IsSupplemented (r ∷ rs) m)) (sym step) (
          IsSupplemented-supply r rs m _
            (λ n kept. (
              c,
              (
                kept r.capability_id c (ground arith),
                ground (
                  arith,
                  cmp_text-IsLawful.eq_of_cmp c.definition_identity.value
                      r.definition_identity.value,
                ),
              ),
            ))
            (materialize-Judges rs (supply r m)))
    | inr other ↦
        let refused =
          capability_identity_mismatch r.capability_id c.definition_identity
            r.definition_identity in
        let step : materialize (r ∷ rs) m ≡ err refused = ground arith in
        subst (Judges (IsSupplemented (r ∷ rs) m)) (sym step) (λ n. mismatch r rs m n c found other)
  ]
]
