-- ===== src/Runtime/Keyed.antt =====
-- Maps in which each value stands under its own identity, once.
use kernis.Base.{
  ◌≡◌, refl, subst, true, false, none, some, List, [], ◌∷◌, arith, Bool-cases, inl, inr, ==_iff,
  ◌==◌,
}
use kernis.Core.{TextId, id_ord}
use kernis.BTree.Map
use kernis.BTree.Map.{Map}
use kernis.BTree.Set
use kernis.BTree.Keys.{contains-keys}
use kernis.Recovery.Durable.Index.{unique, unique-insert}
use kernis.Runtime.Definition.{CapabilityRequirement, Capabilities}
use kernis.Runtime.Validation.{Each}
use kernis.Runtime.Collected.{collect, AreNew, AreNew-insert, supply, undeclared, supplement}

pub record IsKeyed {V : Type 0} (key : V → TextId) (m : Map TextId V) : Type 0 where
  pub distinct : unique (Map.keys m) ≡ true
  pub own : (k : TextId) (v : V) → Map.get m k ≡ some v → key v ≡ k

module _ {V : Type 0} (key : V → TextId) where
  insert-IsKeyed :
      (v : V) (m : Map TextId V)
      → Map.contains_key m (key v) ≡ false
      → IsKeyed key m
      → IsKeyed key (Map.insert m (key v) v)
  insert-IsKeyed v m new h = record {
    distinct = unique-insert m (key v) v (ground arith) h.distinct;
    own = λ k w e. ground (arith, Map.get-insert m (key v) v k, h.own k w, ==_iff (key v) k);
  }

  nil-IsKeyed : IsKeyed key []
  unfolding Map.get
  nil-IsKeyed = record { distinct = refl; own = λ k v e. cc }

  collect-IsKeyed :
      (vs : List V) (m : Map TextId V)
      → AreNew key vs m
      → IsKeyed key m
      → IsKeyed key (collect key vs m)
  unfolding Set.contains
  collect-IsKeyed [] m new h = h
  collect-IsKeyed (v ∷ vs) m new h =
      let absent : Map.contains_key m (key v) ≡ false =
        new.1 (key v) (ground (arith, ==_iff (key v) (key v))) in
      collect-IsKeyed vs (Map.insert m (key v) v) ((AreNew-insert key v vs m absent).1 new)
        (insert-IsKeyed v m absent h)

  -- A map that is made of a list.
  pub collected-IsKeyed : (vs : List V) → AreNew key vs [] → IsKeyed key (collect key vs [])
  collected-IsKeyed vs new = collect-IsKeyed vs [] new nil-IsKeyed

  -- The tail of a map.
  pub tail-IsKeyed :
      (k : TextId) (v : V) (m : Map TextId V) → IsKeyed key ((k, v) ∷ m) → IsKeyed key m
  unfolding Map.get
  tail-IsKeyed k v m h = record {
    distinct = ground (arith, h.distinct);
    own = λ j w e. h.own j w (ground (arith, h.distinct, contains-keys m k, ==_iff k j));
  }

  pub head-IsKeyed :
      (k : TextId) (v : V) (m : Map TextId V)
      → IsKeyed key ((k, v) ∷ m)
      → (key v ≡ k) × (Map.get m k ≡ none)
  unfolding Map.get
  head-IsKeyed k v m h =
      (h.own k v (ground (arith, ==_iff k k)), ground (arith, h.distinct, contains-keys m k))

supply-IsKeyed :
    (r : CapabilityRequirement) (m : Capabilities)
    → IsKeyed (λ c. c.id) m
    → IsKeyed (λ c. c.id) (supply r m)
supply-IsKeyed r m h = elim (Bool-cases (Map.contains_key m r.capability_id)) [
  | inl there ↦ rw (there) h
  | inr absent ↦ rw (absent) (insert-IsKeyed (λ c. c.id) (undeclared r) m absent h)
]

pub supplement-IsKeyed :
    (rs : List CapabilityRequirement) (m : Capabilities)
    → IsKeyed (λ c. c.id) m
    → IsKeyed (λ c. c.id) (supplement rs m)
supplement-IsKeyed [] m h = h
supplement-IsKeyed (r ∷ rs) m h = supplement-IsKeyed rs (supply r m) (supply-IsKeyed r m h)

-- What holds of all values holds of one that is looked up.
pub Each-get :
    {V : Type 0} (P : V → Type 0) (m : Map TextId V) (k : TextId) (v : V)
    → Each P (Map.values m)
    → Map.get m k ≡ some v
    → P v
unfolding Map.get
Each-get P [] k v h e = cc
Each-get P ((j, w) ∷ m) k v h e = elim (Bool-cases (j == k)) [
  | inl here ↦ let same : w ≡ v = ground arith in subst P same h.0
  | inr later ↦ Each-get P m k v h.1 (ground arith)
]
