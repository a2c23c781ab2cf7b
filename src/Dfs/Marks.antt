-- ===== src/Dfs/Marks.antt =====
-- How many identifiers are not marked: the measure of a search, whatever the marks are.
use kernis.Base.{
  ℕ, suc, ◌≡◌, ◌≤◌, ◌<◌, refl, true, none, some, List, [], ◌∷◌, arith, is_some, Ord, ==_iff, length,
}
use kernis.BTree.Map
use kernis.BTree.Set
use kernis.BTree.Map.{Map}

module _ {κ} {K : Type 0} {V : Type κ} ⦃o : Ord K⦄ where
  abbrev pub unmarked : Map K V → List K → ℕ
  unmarked m [] = 0
  unmarked m (x ∷ xs) = elim (Map.get m x) [ none ↦ suc (unmarked m xs) | some _ ↦ unmarked m xs ]

  -- What was marked keeps its mark.
  abbrev pub Extends : Map K V → Map K V → Type κ
  Extends m m' = (v : K) → is_some (Map.get m v) ≡ true → Map.get m' v ≡ Map.get m v

  pub unmarked-le : (m m' : Map K V) (xs : List K) → Extends m m' → unmarked m' xs ≤ unmarked m xs
  unmarked-le m m' [] h = omega arith
  unmarked-le m m' (x ∷ xs) h = ground (arith, h x, unmarked-le m m' xs h)

  pub unmarked-insert-le :
      (m : Map K V) (v : K) (a : V) (xs : List K) → unmarked (Map.insert m v a) xs ≤ unmarked m xs
  unmarked-insert-le m v a [] = omega arith
  unmarked-insert-le m v a (x ∷ xs) =
      ground (arith, Map.get-insert m v a x, unmarked-insert-le m v a xs)

  pub unmarked-insert-lt :
      (m : Map K V) (v : K) (a : V) (xs : List K)
      → Map.get m v ≡ none
      → Set.contains xs v ≡ true
      → unmarked (Map.insert m v a) xs < unmarked m xs
  unfolding Set.contains
  unmarked-insert-lt m v a [] h c = cc
  unmarked-insert-lt m v a (x ∷ xs) h c = ground (
    arith,
    Map.get-insert m v a x,
    unmarked-insert-le m v a xs,
    unmarked-insert-lt m v a xs,
    ==_iff x v,
    ==_iff v x,
  )

pub unmarked-nil {κ} :
    {K : Type 0} ⦃o : Ord K⦄ (V : Type κ) (xs : List K) → unmarked {V = V} [] xs ≡ length xs
unfolding Map.get
unmarked-nil V [] = refl
unmarked-nil V (x ∷ xs) = omega (arith, unmarked-nil V xs)
