-- ===== src/Loader/Resolve/Spec.antt =====
-- What the search for the closure knows of the references that it has seen.
use kernis.Base.{
  ◌≡◌, refl, subst, sym, Bool, true, false, not, ◌||◌, ◌&&◌, none, some, List, [], ◌∷◌, ◌++◌, arith,
  Ord, ◌==◌, ==_iff, if◌then◌else◌, Bool-cases, inl, inr,
}
use Prim.Native.Nat.{Ordering}
use Prim.Native.Nat.Ordering.{lt, eq, gt}
use kernis.BTree.Map
use kernis.BTree.Map.{Map}
use kernis.BTree.Set
use kernis.Loader.Reference.{ModuleReference, reference_ord, cmp_reference}
use kernis.Loader.Catalog.{ModuleCatalog, get}
use kernis.Loader.Resolve.{Discovered, Discoveries, entry_or_insert, discover, sort, insert_sorted}

module _ {K : Type 0} ⦃o : Ord K⦄ where
  pub contains-insert_sorted :
      (a : K) (xs : List K) (b : K)
      → Set.contains (insert_sorted a xs) b ≡ (a == b || Set.contains xs b)
  unfolding insert_sorted Set.contains
  contains-insert_sorted a [] b = refl
  contains-insert_sorted a (x ∷ xs) b = ground (arith, contains-insert_sorted a xs b)

  pub contains-sort : (xs : List K) (b : K) → Set.contains (sort xs) b ≡ Set.contains xs b
  unfolding sort Set.contains
  contains-sort [] b = refl
  contains-sort (x ∷ xs) b =
      ground (arith, contains-sort xs b, contains-insert_sorted x (sort xs) b)

module _ {R : Type 0} (catalog : ModuleCatalog R) where
  -- The dependencies that the catalog declares.
  abbrev pub declared : ModuleReference → List ModuleReference
  declared r = elim (get catalog r) [ none ↦ [] | some entry ↦ entry.dependencies ]

  -- `Needs r d`: the entry of `r` declares the dependency `d`.
  abbrev pub Needs : ModuleReference → ModuleReference → Type 0
  Needs r d = Set.contains (declared r) d ≡ true

  module _ (roots : List ModuleReference) where
    -- The records that a reference may have: it is a root, or a dependency of one that was reached.
    pub data Reached : ModuleReference → Discovered → Type 0 where
      root :
          (r : ModuleReference)
          → Set.contains roots r ≡ true
          → Reached r (record { required_by = none; path = r ∷ [] })
      step :
          (r d : ModuleReference) (discovery : Discovered)
          → Reached r discovery
          → Needs r d
          → Reached d (record { required_by = some r; path = discovery.path ++ d ∷ [] })

    abbrev pub AllReached : Discoveries → Type 0
    AllReached [] = Unit
    AllReached ((r, discovery) ∷ m) = Reached r discovery × AllReached m

    pub AllReached-insert :
        (m : Discoveries) (r : ModuleReference) (discovery : Discovered)
        → AllReached m
        → Reached r discovery
        → AllReached (Map.insert m r discovery)
    unfolding Map.insert reference_ord
    AllReached-insert [] r discovery h k = (k, tt)
    AllReached-insert ((j, w) ∷ m) r discovery h k =
        go (cmp_reference r j) refl (AllReached-insert m r discovery h.1 k)
      where
        inserted : Discoveries
        inserted = Map.insert ((j, w) ∷ m) r discovery

        go :
            (c : Ordering)
            → cmp_reference r j ≡ c
            → AllReached (Map.insert m r discovery)
            → AllReached inserted
        go lt e rest =
            let q : inserted ≡ (r, discovery) ∷ (j, w) ∷ m = ground arith in
            subst AllReached (sym q) (k, h)
        go eq e rest =
            let q : inserted ≡ (r, discovery) ∷ m = ground arith in
            subst AllReached (sym q) (k, h.1)
        go gt e rest =
            let q : inserted ≡ (j, w) ∷ Map.insert m r discovery = ground arith in
            subst AllReached (sym q) (h.0, rest)

    pub AllReached-get :
        (m : Discoveries) (r : ModuleReference) (discovery : Discovered)
        → AllReached m
        → Map.get m r ≡ some discovery
        → Reached r discovery
    unfolding Map.get
    AllReached-get [] r discovery h e = cc
    AllReached-get ((j, w) ∷ m) r discovery h e = elim (Bool-cases (j == r)) [
      | inl same ↦
          let q : w ≡ discovery = ground arith in
          subst (λ z. Reached r z) q (subst (λ z. Reached z w) ((==_iff j r).0 same) h.0)
      | inr other ↦ AllReached-get m r discovery h.1 (ground arith)
    ]

    pub AllReached-entry_or_insert :
        (m : Discoveries) (r : ModuleReference) (discovery : Discovered)
        → AllReached m
        → Reached r discovery
        → AllReached (entry_or_insert m r discovery)
    unfolding entry_or_insert
    AllReached-entry_or_insert m r discovery h k = elim (Bool-cases (Map.contains_key m r)) [
      | inl there ↦ rw (there, entry_or_insert) h
      | inr free ↦ rw (free, entry_or_insert) (AllReached-insert m r discovery h k)
    ]

    pub AllReached-discover :
        (r : ModuleReference) (discovery : Discovered) (resolved : Discoveries)
        (ds : List ModuleReference) (next : Discoveries)
        → Reached r discovery
        → ((d : ModuleReference) → Set.contains ds d ≡ true → Needs r d)
        → AllReached next
        → AllReached (discover r discovery resolved ds next)
    unfolding discover Set.contains
    AllReached-discover r discovery resolved [] next h k n = n
    AllReached-discover r discovery resolved (d ∷ ds) next h k n =
        AllReached-discover r discovery resolved ds _ h (λ e c. k e (ground arith))
          (go (Map.contains_key resolved d))
      where
        go :
            (b : Bool)
            → AllReached (
                if b
                then next
                else entry_or_insert next d
                    (record { required_by = some r; path = discovery.path ++ d ∷ [] }))
        go true = n
        go false =
            AllReached-entry_or_insert next d _ n
              (step r d discovery h (k d (ground (arith, ==_iff d d))))

module _ {K : Type 0} {V : Type 0} ⦃o : Ord K⦄ where
  pub contains_key-entry_or_insert :
      (m : Map K V) (k : K) (v : V) (j : K)
      → Map.contains_key (entry_or_insert m k v) j ≡ (k == j || Map.contains_key m j)
  unfolding entry_or_insert
  contains_key-entry_or_insert m k v j =
      ground (arith, Bool-cases (Map.contains_key m k), Map.get-insert m k v j, ==_iff k j)

pub contains_key-discover :
    (r : ModuleReference) (discovery : Discovered) (resolved : Discoveries)
    (ds : List ModuleReference) (next : Discoveries) (x : ModuleReference)
    → Map.contains_key (discover r discovery resolved ds next) x
      ≡ (Map.contains_key next x || (Set.contains ds x && not (Map.contains_key resolved x)))
unfolding discover Set.contains
contains_key-discover r discovery resolved [] next x = ground arith
contains_key-discover r discovery resolved (d ∷ ds) next x = ground (
  arith,
  contains_key-discover r discovery resolved ds next x,
  contains_key-discover r discovery resolved ds
      (entry_or_insert next d (record { required_by = some r; path = discovery.path ++ d ∷ [] })) x,
  contains_key-entry_or_insert next d
      (record { required_by = some r; path = discovery.path ++ d ∷ [] }) x,
  ==_iff d x,
)
