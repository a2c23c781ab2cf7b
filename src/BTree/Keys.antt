-- ===== src/BTree/Keys.antt =====
-- The keys of a map as a set.
use kernis.Base.{◌≡◌, refl, [], ◌∷◌, arith, is_some, Ord}
use kernis.BTree.Map
use kernis.BTree.Map.{Map}
use kernis.BTree.Set

module _ {ℓ κ} {K : Type ℓ} {V : Type κ} ⦃o : Ord K⦄ where
  pub contains-keys : (m : Map K V) (k : K) → Set.contains (Map.keys m) k ≡ is_some (Map.get m k)
  unfolding Map.get Set.contains
  contains-keys [] k = refl
  contains-keys ((j, v) ∷ m) k = ground (arith, contains-keys m k)
