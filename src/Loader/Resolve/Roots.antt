-- ===== src/Loader/Resolve/Roots.antt =====
-- `collect_roots`: each root once, or one that stands twice.
use Prim.Native.Nat.{Ordering}
use Prim.Native.Nat.Ordering.{lt, eq, gt}
use kernis.Base.{
  ℕ, suc, ◌≡◌, ◌≢◌, ◌≤◌, refl, subst, sym, ◌∙◌, true, false, none, some, List, [], ◌∷◌, arith,
  Bool-cases, Option-cases, inl, inr, ==_iff, ◌==◌, Ord, if◌then◌else◌, Outcome, ok, err, fault,
}
use kernis.BTree.Set
use kernis.Loader.Reference.{ModuleReference, reference_ord}
use kernis.Loader.Error.{LoaderError, duplicate_root_reference}
use kernis.Loader.Resolve.{sort, insert_sorted, set_of, find_duplicate, collect_roots}
use kernis.Loader.Resolve.Spec.{contains-sort, contains-insert_sorted}

module _ {K : Type 0} ⦃o : Ord K⦄ where
  -- How often an element stands in a list.
  abbrev pub occurrences : K → List K → ℕ
  occurrences k [] = 0
  occurrences k (x ∷ xs) = if x == k then suc (occurrences k xs) else occurrences k xs

  occurrences-insert_sorted :
      (k a : K) (xs : List K) → occurrences k (insert_sorted a xs) ≡ occurrences k (a ∷ xs)
  unfolding insert_sorted
  occurrences-insert_sorted k a [] = refl
  occurrences-insert_sorted k a (x ∷ xs) = ground (arith, occurrences-insert_sorted k a xs)

  occurrences-sort : (k : K) (xs : List K) → occurrences k (sort xs) ≡ occurrences k xs
  unfolding sort
  occurrences-sort k [] = refl
  occurrences-sort k (x ∷ xs) =
      ground (arith, occurrences-sort k xs, occurrences-insert_sorted k x (sort xs))

  find_duplicate-some : (xs : List K) (d : K) → find_duplicate xs ≡ some d → 2 ≤ occurrences d xs
  unfolding find_duplicate
  find_duplicate-some [] d h = cc
  find_duplicate-some (x ∷ []) d h = cc
  find_duplicate-some (x ∷ y ∷ xs) d h =
      ground (arith, find_duplicate-some (y ∷ xs) d, ==_iff x y, ==_iff x d, ==_iff y d)

  -- No element is behind a greater one.
  abbrev IsSorted : List K → Type 0
  IsSorted [] = Unit
  IsSorted (x ∷ xs) = ((y : K) → Set.contains xs y ≡ true → o.cmp x y ≢ gt) × IsSorted xs

  insert_sorted-IsSorted : (a : K) (xs : List K) → IsSorted xs → IsSorted (insert_sorted a xs)
  unfolding insert_sorted Set.contains
  insert_sorted-IsSorted a [] h = (λ y c. cc, tt)
  insert_sorted-IsSorted a (x ∷ xs) h = go (o.cmp a x) refl (insert_sorted-IsSorted a xs h.1)
    where
      inserted : List K
      inserted = insert_sorted a (x ∷ xs)

      before : o.cmp a x ≢ gt → IsSorted (a ∷ x ∷ xs)
      before e = (
        λ y c f.
            ground (arith, h.0 y, ==_iff x y, o.lt_trans a x y, o.eq_of_cmp a x, o.eq_of_cmp x y),
        h,
      )

      go : (c : Ordering) → o.cmp a x ≡ c → IsSorted (insert_sorted a xs) → IsSorted inserted
      go lt e rest =
          let q : inserted ≡ a ∷ x ∷ xs = ground arith in
          subst IsSorted (sym q) (before (ground arith))
      go eq e rest =
          let q : inserted ≡ a ∷ x ∷ xs = ground arith in
          subst IsSorted (sym q) (before (ground arith))
      go gt e rest =
          let q : inserted ≡ x ∷ insert_sorted a xs = ground arith in
          subst IsSorted (sym q) (
            λ y c f.
                ground (arith, h.0 y, contains-insert_sorted a xs y, o.lt_of_gt a x, ==_iff a y),
            rest,
          )

  sort-IsSorted : (xs : List K) → IsSorted (sort xs)
  unfolding sort
  sort-IsSorted [] = tt
  sort-IsSorted (x ∷ xs) = insert_sorted-IsSorted x (sort xs) (sort-IsSorted xs)

  occurrences-absent : (k : K) (xs : List K) → Set.contains xs k ≡ false → occurrences k xs ≡ 0
  unfolding Set.contains
  occurrences-absent k [] h = refl
  occurrences-absent k (x ∷ xs) h = ground (arith, occurrences-absent k xs)

  -- Without equal neighbours nothing stands twice in a sorted list.
  find_duplicate-none :
      (xs : List K) → IsSorted xs → find_duplicate xs ≡ none → (k : K) → occurrences k xs ≤ 1
  unfolding find_duplicate Set.contains
  find_duplicate-none [] h e k = omega arith
  find_duplicate-none (x ∷ []) h e k = ground arith
  find_duplicate-none (x ∷ y ∷ xs) h e k =
      let rest = find_duplicate-none (y ∷ xs) h.1 (ground arith) k in
      elim (Bool-cases (x == k)) [
        | inr other ↦ ground (arith, rest)
        | inl same ↦
            let q : x ≡ k = (==_iff x k).0 same in
            let new : Set.contains (y ∷ xs) x ≡ false = ground (
              arith,
              Bool-cases (Set.contains (y ∷ xs) x),
              h.0 y,
              h.1.0 x,
              ==_iff y x,
              ==_iff x y,
              ==_iff y y,
              o.lt_trans x y x,
              o.cmp_refl x,
              o.eq_of_cmp y x,
              o.eq_of_cmp x y,
            ) in
            let gone : occurrences k (y ∷ xs) ≡ 0 =
              subst (λ z. occurrences z (y ∷ xs) ≡ 0) q (occurrences-absent x (y ∷ xs) new) in
            ground (arith, gone)
      ]

  contains-set_of : (xs : List K) (k : K) → Set.contains (set_of xs) k ≡ Set.contains xs k
  unfolding set_of Set.contains
  contains-set_of [] k = refl
  contains-set_of (x ∷ xs) k =
      ground (arith, contains-set_of xs k, Set.contains-insert (set_of xs) x k)

module _ (roots : List ModuleReference) where
  -- The roots as a set, and each of them stands once.
  pub record IsCollected (rs : List ModuleReference) : Type 0 where
    pub same_roots : (r : ModuleReference) → Set.contains rs r ≡ Set.contains roots r
    pub once : (r : ModuleReference) → occurrences r roots ≤ 1

  abbrev pub CollectEnsures : Outcome LoaderError (List ModuleReference) → Type 0
  CollectEnsures (ok rs) = IsCollected rs
  CollectEnsures (err (duplicate_root_reference d)) = 2 ≤ occurrences d roots
  CollectEnsures (err _) = ⊥
  CollectEnsures (fault x) = ⊥

  pub collect_roots-Ensures : CollectEnsures (collect_roots roots)
  unfolding collect_roots
  collect_roots-Ensures = elim (Option-cases (find_duplicate (sort roots))) [
    | inl e ↦
        rw (e, collect_roots)
          (record {
            same_roots = λ r. contains-set_of (sort roots) r ∙ contains-sort roots r;
            once = λ r.
                subst (λ n. n ≤ 1) (occurrences-sort r roots)
                  (find_duplicate-none (sort roots) (sort-IsSorted roots) e r);
          })
    | inr (d, e) ↦
        rw (e, collect_roots)
          (subst (λ n. 2 ≤ n) (occurrences-sort d roots) (find_duplicate-some (sort roots) d e))
  ]
