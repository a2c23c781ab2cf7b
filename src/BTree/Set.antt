-- ===== src/BTree/Set.antt =====
-- `BTreeSet<K>` as the list of its elements. `insert` keeps their order.
use Prim.Native.Nat.Ordering.{lt, eq, gt}
use kernis.Base.{
  ◌≡◌, refl, Bool, false, ◌||◌, List, [], ◌∷◌, ◌++◌, arith, if◌then◌else◌, Ord, ◌==◌, ==_iff,
}

module _ {ℓ} {K : Type ℓ} ⦃o : Ord K⦄ where
  unfoldable pub contains : List K → K → Bool
  contains [] a = false
  contains (x ∷ xs) a = x == a || contains xs a

  unfoldable pub insert : List K → K → List K
  insert [] a = a ∷ []
  insert (x ∷ xs) a =
      let rest = insert xs a in elim (o.cmp a x) [ lt ↦ a ∷ x ∷ xs | eq ↦ x ∷ xs | gt ↦ x ∷ rest ]

  unfoldable pub remove : List K → K → List K
  remove [] a = []
  remove (x ∷ xs) a = let rest = remove xs a in if x == a then rest else x ∷ rest

  pub contains-insert :
      (xs : List K) (a b : K) → contains (insert xs a) b ≡ (a == b || contains xs b)
  unfolding contains insert
  contains-insert [] a b = ground arith
  contains-insert (x ∷ xs) a b =
      ground (arith, contains-insert xs a b, o.eq_of_cmp a x, ==_iff a b, ==_iff x b)

  pub contains-append :
      (xs ys : List K) (a : K) → contains (xs ++ ys) a ≡ (contains xs a || contains ys a)
  unfolding contains
  contains-append [] ys a = refl
  contains-append (x ∷ xs) ys a = ground (arith, contains-append xs ys a)

  remove-absent : (xs : List K) (a : K) → contains xs a ≡ false → remove xs a ≡ xs
  unfolding contains remove
  remove-absent [] a h = refl
  remove-absent (x ∷ xs) a h = ground (arith, remove-absent xs a)

  pub remove-insert : (xs : List K) (a : K) → contains xs a ≡ false → remove (insert xs a) a ≡ xs
  unfolding contains insert remove
  remove-insert [] a h = ground (arith, ==_iff a a)
  remove-insert (x ∷ xs) a h = ground (
    arith,
    remove-insert xs a,
    remove-absent xs a,
    ==_iff a a,
    ==_iff x a,
    o.lt_of_gt x a,
    o.eq_of_cmp a x,
  )

  pub insert-ne-nil : (xs : List K) (a : K) → (insert xs a ≡ []) → ⊥
  unfolding insert
  insert-ne-nil [] a h = cc
  insert-ne-nil (x ∷ xs) a h = ground arith
