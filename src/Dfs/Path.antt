-- ===== src/Dfs/Path.antt =====
-- Paths along a relation on identifiers, and the cycle that a search cuts from its stack.
use mathlib.Core.WellFounded.{Acc}
use kernis.Base.{
  ℕ, suc, ◌≡◌, ap, sym, subst, true, Option, none, some, List, [], ◌∷◌, ◌++◌, arith, ==_iff,
  Bool-cases, inl, inr, ◌==◌, Ord, if◌then◌else◌, drop,
}
use kernis.BTree.Set

module _ {K : Type 0} ⦃o : Ord K⦄ where
  -- `iter().position(|candidate| candidate == d)`
  unfoldable pub position : List K → K → Option ℕ
  position [] d = none
  position (x ∷ xs) d =
      if x == d then some 0 else elim (position xs d) [ none ↦ none | some n ↦ some (suc n) ]

module _ {K : Type 0} ⦃o : Ord K⦄ (E : K → K → Type 0) where
  -- Each element is related to the next one.
  abbrev pub IsChain : List K → Type 0
  IsChain [] = Unit
  IsChain (x ∷ []) = Unit
  IsChain (x ∷ y ∷ xs) = E x y × IsChain (y ∷ xs)

  -- A path that ends where it began.
  pub record IsCycle (path : List K) : Type 0 where
    pub start : K
    pub rest : List K
    pub closes : path ≡ start ∷ rest ++ start ∷ []
    pub chain : IsChain path

  -- Every path from the element ends.
  abbrev pub Grounded : K → Type 0
  Grounded v = Acc (λ d u. E u d) v

  pub IsChain-snoc :
      (s : List K) (a b : K) → IsChain (s ++ a ∷ []) → E a b → IsChain ((s ++ a ∷ []) ++ b ∷ [])
  IsChain-snoc [] a b h e = (e, tt)
  IsChain-snoc (x ∷ []) a b h e = (h.0, (e, tt))
  IsChain-snoc (x ∷ y ∷ s) a b h e = (h.0, IsChain-snoc (y ∷ s) a b h.1 e)

  IsChain-tail : (x : K) (s : List K) → IsChain (x ∷ s) → IsChain s
  IsChain-tail x [] h = tt
  IsChain-tail x (y ∷ s) h = h.1

  -- A path from an element on, closed by that element.
  pub position-IsCycle :
      (s : List K) (d : K)
      → Set.contains s d ≡ true
      → IsChain (s ++ d ∷ [])
      → (n : ℕ) × (position s d ≡ some n) × IsCycle (drop n s ++ d ∷ [])
  unfolding position Set.contains
  position-IsCycle [] d m h = cc
  position-IsCycle (x ∷ s) d m h = elim (Bool-cases (x == d)) [
    | inl e ↦ (
      0,
      ground arith,
      record {
        start = x;
        rest = s;
        closes = ap (λ v. x ∷ s ++ v ∷ []) (sym ((==_iff x d).0 e));
        chain = h;
      },
    )
    | inr e ↦
        let (n, q, c) = position-IsCycle s d (ground arith) (IsChain-tail x (s ++ d ∷ []) h) in
        (suc n, ground arith, c)
  ]

  no_cycle : (a : K) → Grounded a → (xs : List K) → IsChain (a ∷ xs ++ a ∷ []) → ⊥
  no_cycle a (Acc.intro _ g) [] h = no_cycle a (g a h.0) [] h
  no_cycle a (Acc.intro _ g) (x ∷ xs) h =
      no_cycle x (g x h.0) (xs ++ a ∷ []) (IsChain-snoc (x ∷ xs) a x h.1 h.0)

  -- A path of two or more elements ends in a target of the relation.
  end_of_chain :
      {P : K → Type 0}
      → ((v d : K) → E v d → P d)
      → (a b : K) (xs : List K) → IsChain (a ∷ xs ++ b ∷ [])
      → P b
  end_of_chain target a b [] h = target a b h.0
  end_of_chain target a b (x ∷ xs) h = end_of_chain target x b xs h.1

  -- Where all targets are grounded there is no cycle.
  pub Grounded-no_cycle : ((v d : K) → E v d → Grounded d) → (p : List K) → ¬ IsCycle p
  Grounded-no_cycle grounded p c =
      let h = subst IsChain c.closes c.chain in
      no_cycle c.start (end_of_chain grounded c.start c.start c.rest h) c.rest h
