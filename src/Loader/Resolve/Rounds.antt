-- ===== src/Loader/Resolve/Rounds.antt =====
-- A round of the search for the closure: what it keeps, and that it makes progress.
use kernis.Base.{
  ℕ, ◌≡◌, ◌≤◌, ◌<◌, ap, subst, sym, ◌∙◌, ◌⊎◌, Bool, true, ◌||◌, none, some, List, [], ◌∷◌, arith,
  is_some, ◌==◌, ==_iff, Bool-cases, Option-cases, inl, inr,
}
use kernis.BTree.Map
use kernis.BTree.Map.{Map}
use kernis.BTree.Set
use kernis.BTree.Keys.{contains-keys}
use kernis.Dfs.Marks.{unmarked, unmarked-insert-lt}
use kernis.Loader.Reference.{ModuleReference, reference_ord}
use kernis.Loader.Catalog.{CatalogEntry, ModuleCatalog, get}
use kernis.Loader.Resolve.{
  Discovered, Discoveries, Round, entry_or_insert, discover, explore, explore_all,
  sorted_dependencies,
}
use kernis.Loader.Resolve.Spec.{
  contains-sort, Needs, AllReached, AllReached-insert, AllReached-entry_or_insert,
  AllReached-discover, contains_key-entry_or_insert, contains_key-discover,
}

module _ {R : Type 0} (catalog : ModuleCatalog R) (roots : List ModuleReference) where
  -- A reference is resolved, missing, or still to come in this round or the next one.
  abbrev pub seen : Discoveries → Round → ModuleReference → Bool
  seen pending r x =
      Map.contains_key r.resolved x
      || Map.contains_key r.missing x
      || Map.contains_key r.next x
      || Map.contains_key pending x

  pub record Inv (pending : Discoveries) (r : Round) : Type 0 where
    pub roots_seen : (x : ModuleReference) → Set.contains roots x ≡ true → seen pending r x ≡ true
    pub needs_seen :
        (x d : ModuleReference)
        → Map.contains_key r.resolved x ≡ true
        → Needs catalog x d
        → seen pending r d ≡ true
    pub known :
        (x : ModuleReference)
        → Map.contains_key r.resolved x ≡ true
        → is_some (get catalog x) ≡ true
    pub unknown : (x : ModuleReference) → Map.contains_key r.missing x ≡ true → get catalog x ≡ none
    pub resolved_reached : AllReached catalog roots r.resolved
    pub missing_reached : AllReached catalog roots r.missing
    pub next_reached : AllReached catalog roots r.next
    pub pending_reached : AllReached catalog roots pending

  -- The number of entries that are not resolved.
  abbrev pub unresolved : Round → ℕ
  unresolved r = unmarked r.resolved (Map.keys catalog.entries)

  -- The reference was resolved before.
  again :
      (k : ModuleReference) (v : Discovered) (pending : Discoveries) (r : Round)
      → Map.contains_key r.resolved k ≡ true
      → Inv ((k, v) ∷ pending) r
      → Inv pending r
  unfolding Map.get
  again k v pending r e h = record {
    roots_seen = λ x c. ground (arith, h.roots_seen x c, ==_iff k x);
    needs_seen = λ x d c n. ground (arith, h.needs_seen x d c n, ==_iff k d);
    known = h.known;
    unknown = h.unknown;
    resolved_reached = h.resolved_reached;
    missing_reached = h.missing_reached;
    next_reached = h.next_reached;
    pending_reached = h.pending_reached.1;
  }

  -- The catalog has no entry for the reference.
  lost :
      (k : ModuleReference) (v : Discovered) (pending : Discoveries) (r : Round)
      → get catalog k ≡ none
      → Inv ((k, v) ∷ pending) r
      → Inv pending (record r { missing = entry_or_insert r.missing k v })
  unfolding Map.get
  lost k v pending r e h = record {
    roots_seen =
        λ x c. ground (arith, h.roots_seen x c, contains_key-entry_or_insert r.missing k v x);
    needs_seen = λ x d c n.
        ground (arith, h.needs_seen x d c n, contains_key-entry_or_insert r.missing k v d);
    known = h.known;
    unknown = λ x c.
        ground (arith, h.unknown x, contains_key-entry_or_insert r.missing k v x, ==_iff k x);
    resolved_reached = h.resolved_reached;
    missing_reached =
        AllReached-entry_or_insert catalog roots r.missing k v h.missing_reached
          h.pending_reached.0;
    next_reached = h.next_reached;
    pending_reached = h.pending_reached.1;
  }

  -- The round in which the reference is resolved.
  abbrev settle : ModuleReference → Discovered → CatalogEntry R → Round → Round
  settle k v entry r =
      let resolved = Map.insert r.resolved k v in
      record r {
        resolved = resolved;
        next = discover k v resolved (sorted_dependencies entry) r.next;
      }

  contains-sorted :
      (entry : CatalogEntry R) (d : ModuleReference)
      → Set.contains (sorted_dependencies entry) d ≡ Set.contains entry.dependencies d
  unfolding sorted_dependencies
  contains-sorted entry d = contains-sort entry.dependencies d

  settled :
      (k : ModuleReference) (v : Discovered) (pending : Discoveries) (r : Round)
      (entry : CatalogEntry R)
      → get catalog k ≡ some entry
      → Inv ((k, v) ∷ pending) r
      → Inv pending (settle k v entry r)
  unfolding Map.get
  settled k v pending r entry e h = record {
    roots_seen = λ x c. ground (
      arith,
      h.roots_seen x c,
      Map.get-insert r.resolved k v x,
      contains_key-discover k v (Map.insert r.resolved k v) (sorted_dependencies entry) r.next x,
    );
    needs_seen = λ x d c n.
        let here = Map.get-insert r.resolved k v d in
        let later =
          contains_key-discover k v (Map.insert r.resolved k v) (sorted_dependencies entry) r.next
            d in
        elim (Bool-cases (k == x)) [
          | inl same ↦
              let own : Needs catalog k d =
                subst (λ z. Needs catalog z d) (sym ((==_iff k x).0 same)) n in
              ground (arith, here, later, contains-sorted entry d, own)
          | inr other ↦
              let old = h.needs_seen x d (ground (arith, Map.get-insert r.resolved k v x)) n in
              ground (arith, here, later, old)
        ];
    known = λ x c. ground (arith, h.known x, Map.get-insert r.resolved k v x, ==_iff k x);
    unknown = h.unknown;
    resolved_reached =
        AllReached-insert catalog roots r.resolved k v h.resolved_reached h.pending_reached.0;
    missing_reached = h.missing_reached;
    next_reached =
        AllReached-discover catalog roots k v _ (sorted_dependencies entry) r.next
          h.pending_reached.0 (λ d c. ground (arith, contains-sorted entry d)) h.next_reached;
    pending_reached = h.pending_reached.1;
  }

  pub explore-Inv :
      (k : ModuleReference) (v : Discovered) (pending : Discoveries) (r : Round)
      → Inv ((k, v) ∷ pending) r
      → Inv pending (explore catalog k v r)
  unfolding explore
  explore-Inv k v pending r h = elim (Bool-cases (Map.contains_key r.resolved k)) [
    | inl there ↦ rw (there, explore) (again k v pending r there h)
    | inr new ↦ elim (Option-cases (get catalog k)) [
      | inl e ↦ rw (new, e, explore) (lost k v pending r e h)
      | inr (entry, e) ↦ rw (new, e, explore) (settled k v pending r entry e h)
    ]
  ]

  pub explore_all-Inv :
      (pending : Discoveries) (r : Round) → Inv pending r → Inv [] (explore_all catalog pending r)
  unfolding explore_all
  explore_all-Inv [] r h = h
  explore_all-Inv ((k, v) ∷ pending) r h =
      explore_all-Inv pending (explore catalog k v r) (explore-Inv k v pending r h)

  listed :
      (k : ModuleReference) (entry : CatalogEntry R)
      → get catalog k ≡ some entry
      → Map.contains_key catalog.entries k ≡ true
  unfolding get
  listed k entry e = ground arith

  -- One reference either adds nothing to the next round, or one more entry is resolved.
  explore-progress :
      (k : ModuleReference) (v : Discovered) (r : Round)
      → (unresolved (explore catalog k v r) < unresolved r)
        ⊎ (((explore catalog k v r).next ≡ r.next)
            × (unresolved (explore catalog k v r) ≡ unresolved r))
  unfolding explore
  explore-progress k v r = elim (Bool-cases (Map.contains_key r.resolved k)) [
    | inl there ↦
        let s : explore catalog k v r ≡ r = ground arith in
        inr (ap (λ z. z.next) s, ap unresolved s)
    | inr new ↦ elim (Option-cases (get catalog k)) [
      | inl e ↦
          let s : explore catalog k v r ≡ record r { missing = entry_or_insert r.missing k v } =
            ground arith in
          inr (ap (λ z. z.next) s, ap unresolved s)
      | inr (entry, e) ↦
          let s : explore catalog k v r ≡ settle k v entry r = ground arith in
          inl (
            subst (λ z. unresolved z < unresolved r) (sym s)
              (unmarked-insert-lt r.resolved k v (Map.keys catalog.entries) (ground arith)
                (contains-keys catalog.entries k ∙ listed k entry e)))
    ]
  ]

  -- A round ends with nothing to do, or has resolved one more entry than it began with.
  abbrev pub Advances : ℕ → Round → Type 0
  Advances before r = (unresolved r < before) ⊎ ((r.next ≡ []) × (unresolved r ≤ before))

  pub explore_all-Advances :
      (before : ℕ) (pending : Discoveries) (r : Round)
      → Advances before r
      → Advances before (explore_all catalog pending r)
  unfolding explore_all
  explore_all-Advances before [] r h = h
  explore_all-Advances before ((k, v) ∷ pending) r h =
      explore_all-Advances before pending (explore catalog k v r)
        (after (explore catalog k v r) (explore-progress k v r) h)
    where
      after :
          (r' : Round)
          → (unresolved r' < unresolved r) ⊎ ((r'.next ≡ r.next) × (unresolved r' ≡ unresolved r))
          → Advances before r
          → Advances before r'
      after r' (inl less) (inl a) = inl (omega arith)
      after r' (inl less) (inr a) = inl (omega (arith, a.1))
      after r' (inr e) (inl a) = inl (omega (arith, e.1))
      after r' (inr e) (inr a) = inr (e.0 ∙ a.0, omega (arith, e.1, a.1))
