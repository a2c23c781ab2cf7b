-- ===== src/Loader/Resolve/Construct.antt =====
-- crates/runtime-loader/src/resolve.rs: `construct`, the third phase.
use kernis.Base.{
  ◌≡◌, refl, sym, ◌∙◌, Bool, true, false, ◌&&◌, none, some, List, [], ◌∷◌, ◌++◌, map, arith,
  is_some, Bool-cases, Option-cases, inl, inr, ==_iff, ◌==◌, if◌then◌else◌, Outcome, ok, err, Fault,
  fault, panic, ◌>>=◌,
}
use kernis.Core.{TextId, id_ord}
use kernis.BTree.Map
use kernis.BTree.Set
use kernis.BTree.Keys.{contains-keys}
use kernis.Loader.Reference.{ModuleReference, reference_ord}
use kernis.Loader.Error.{
  LoaderError, ModuleFactoryError, incompatible_entry, registration_construction_failed,
  produced_identity_mismatch, declared_dependencies_disagree,
}
use kernis.Loader.Catalog.{Registration, CatalogEntry, ModuleCatalog, get}
use kernis.Loader.Resolve.{Discoveries, set_of}
use kernis.Loader.Resolve.Cycles.{Fallible}

-- `==` of two sorted sets.
unfoldable pub same_ids : List TextId → List TextId → Bool
same_ids [] [] = true
same_ids [] (y ∷ ys) = false
same_ids (x ∷ xs) [] = false
same_ids (x ∷ xs) (y ∷ ys) = x == y && same_ids xs ys

pub record ResolvedEntry (R : Type 0) : Type 0 where
  pub reference : ModuleReference
  pub registration : R

-- `.map_err(|source| RegistrationConstructionFailed { .. })`
unfoldable pub construction_failed :
    {R : Type 0} → ModuleReference → Outcome ModuleFactoryError R → Fallible R
construction_failed reference (ok registration) = ok registration
construction_failed reference (err source) = err (registration_construction_failed reference source)
construction_failed reference (fault x) = fault x

module _ {R : Type 0} (definition : Registration R) (catalog : ModuleCatalog R) where
  -- The sets of logical identifiers that are compared.
  abbrev pub declared_ids : CatalogEntry R → List TextId
  declared_ids entry = set_of (map (λ d. d.id) entry.dependencies)

  abbrev pub produced_ids : R → List TextId
  produced_ids registration = set_of (definition.definition_dependencies registration)

  -- The two checks of a fresh registration.
  unfoldable pub check_entry : ModuleReference → CatalogEntry R → R → Fallible (ResolvedEntry R)
  unfolding same_ids
  check_entry reference entry registration =
      if definition.definition_id registration == reference.id
      then (if same_ids (declared_ids entry) (produced_ids registration)
          then ok (record { reference = reference; registration = registration })
          else err (
              incompatible_entry reference
                (declared_dependencies_disagree (declared_ids entry) (produced_ids registration))))
      else err (
          incompatible_entry reference
            (produced_identity_mismatch (definition.definition_id registration)))

  unfoldable pub construct_entry : ModuleReference → Fallible (ResolvedEntry R)
  unfolding check_entry construction_failed
  construct_entry reference = elim (get catalog reference) [
    | none ↦ fault panic
    | some entry ↦ construction_failed reference (entry.factory tt) >>= check_entry reference entry
  ]

  -- The loop of `construct` over the keys.
  unfoldable pub construct_all : List ModuleReference → Fallible (List (ResolvedEntry R))
  unfolding construct_entry
  construct_all [] = ok []
  construct_all (reference ∷ rs) =
      construct_entry reference >>= λ entry. construct_all rs >>= λ entries. ok (entry ∷ entries)

  unfoldable pub construct : Discoveries → Fallible (List (ResolvedEntry R))
  unfolding construct_all
  construct resolved = construct_all (Map.keys resolved)

  -- The entry of the catalog and the product of its factory agree.
  pub record IsSound (r : ResolvedEntry R) : Type 0 where
    pub entry : CatalogEntry R
    pub listed : get catalog r.reference ≡ some entry
    pub produced : entry.factory tt ≡ ok r.registration
    pub same_identity : definition.definition_id r.registration ≡ r.reference.id
    pub same_dependencies : declared_ids entry ≡ produced_ids r.registration

  same_ids-eq : (xs ys : List TextId) → same_ids xs ys ≡ true → xs ≡ ys
  unfolding same_ids
  same_ids-eq [] [] h = refl
  same_ids-eq [] (y ∷ ys) h = cc
  same_ids-eq (x ∷ xs) [] h = cc
  same_ids-eq (x ∷ xs) (y ∷ ys) h = ground (arith, same_ids-eq xs ys, ==_iff x y)

  -- Factories return: they do not panic.
  abbrev pub FactoriesReturn : Type 0
  FactoriesReturn =
      (r : ModuleReference) (entry : CatalogEntry R) (x : Fault)
      → get catalog r ≡ some entry
      → ¬ (entry.factory tt ≡ fault x)

  -- What an error of the third phase says of the reference that it stopped at.
  abbrev pub IsRefused : ModuleReference → LoaderError → Type 0
  IsRefused r (incompatible_entry reference (produced_identity_mismatch actual)) =
      (reference ≡ r)
      × (entry : CatalogEntry R) × (registration : R) × (get catalog reference ≡ some entry)
      × (entry.factory tt ≡ ok registration)
      × (actual ≡ definition.definition_id registration)
      × ((actual == reference.id) ≡ false)
  IsRefused r (incompatible_entry reference (declared_dependencies_disagree declared produced)) =
      (reference ≡ r)
      × (entry : CatalogEntry R) × (registration : R) × (get catalog reference ≡ some entry)
      × (entry.factory tt ≡ ok registration)
      × (declared ≡ declared_ids entry)
      × (produced ≡ produced_ids registration)
      × (same_ids declared produced ≡ false)
  IsRefused r (registration_construction_failed reference source) =
      (reference ≡ r)
      × (entry : CatalogEntry R) × (get catalog reference ≡ some entry)
      × (entry.factory tt ≡ err source)
  IsRefused r _ = ⊥

  abbrev EntryEnsures : ModuleReference → Fallible (ResolvedEntry R) → Type 0
  EntryEnsures r (ok e) = (e.reference ≡ r) × IsSound e
  EntryEnsures r (err e) = IsRefused r e
  EntryEnsures r (fault x) = ⊥

  check_entry-Ensures :
      (r : ModuleReference) (entry : CatalogEntry R) (registration : R)
      → get catalog r ≡ some entry
      → entry.factory tt ≡ ok registration
      → EntryEnsures r (check_entry r entry registration)
  unfolding check_entry
  check_entry-Ensures r entry registration e f =
      elim (Bool-cases (definition.definition_id registration == r.id)) [
        | inr other ↦ rw (other, check_entry) (refl, entry, registration, e, f, refl, other)
        | inl same ↦ elim (Bool-cases (same_ids (declared_ids entry) (produced_ids registration))) [
          | inr differ ↦
              rw (same, differ, check_entry) (refl, entry, registration, e, f, refl, refl, differ)
          | inl agree ↦
              rw (same, agree, check_entry)
                (
                  refl,
                  record {
                    entry = entry;
                    listed = e;
                    produced = f;
                    same_identity = (==_iff _ _).0 same;
                    same_dependencies = same_ids-eq _ _ agree;
                  },
                )
        ]
      ]

  made-Ensures :
      FactoriesReturn
      → (r : ModuleReference) (entry : CatalogEntry R) → get catalog r ≡ some entry
      → (m : Outcome ModuleFactoryError R) → entry.factory tt ≡ m
      → EntryEnsures r (construction_failed r m >>= check_entry r entry)
  unfolding construction_failed
  made-Ensures returns r entry e (ok registration) f = check_entry-Ensures r entry registration e f
  made-Ensures returns r entry e (err source) f = (refl, entry, e, f)
  made-Ensures returns r entry e (fault x) f = absurd (returns r entry x e f)

  construct_entry-Ensures :
      FactoriesReturn
      → (r : ModuleReference) → is_some (get catalog r) ≡ true
      → EntryEnsures r (construct_entry r)
  unfolding construct_entry
  construct_entry-Ensures returns r known = elim (Option-cases (get catalog r)) [
    | inl away ↦ absurd (ground arith)
    | inr (entry, e) ↦ rw (e, construct_entry) (made-Ensures returns r entry e _ refl)
  ]

  abbrev pub AllSound : List (ResolvedEntry R) → Type 0
  AllSound [] = Unit
  AllSound (e ∷ es) = IsSound e × AllSound es

  -- The third phase stopped at the first of the references `rs` that does not pass.
  pub record StopsAt (rs : List ModuleReference) (e : LoaderError) : Type 0 where
    pub built : List (ResolvedEntry R)
    pub reference : ModuleReference
    pub after : List ModuleReference
    pub split : rs ≡ map (λ b. b.reference) built ++ reference ∷ after
    pub sound : AllSound built
    pub refused : IsRefused reference e

  StopsAt-cons :
      (r : ModuleReference) (rs : List ModuleReference) (x : ResolvedEntry R) (e : LoaderError)
      → x.reference ≡ r
      → IsSound x
      → StopsAt rs e
      → StopsAt (r ∷ rs) e
  StopsAt-cons r rs x e same sound h = record {
    built = x ∷ h.built;
    reference = h.reference;
    after = h.after;
    split = ground (arith, same, h.split);
    sound = (sound, h.sound);
    refused = h.refused;
  }

  -- What the third phase answers for the references `rs`.
  abbrev pub ConstructEnsures : List ModuleReference → Fallible (List (ResolvedEntry R)) → Type 0
  ConstructEnsures rs (ok es) = (map (λ e. e.reference) es ≡ rs) × AllSound es
  ConstructEnsures rs (err e) = StopsAt rs e
  ConstructEnsures rs (fault x) = ⊥

  one-Ensures :
      (r : ModuleReference) (rs : List ModuleReference) (m : Fallible (ResolvedEntry R))
      (rest : Fallible (List (ResolvedEntry R)))
      → EntryEnsures r m
      → ConstructEnsures rs rest
      → ConstructEnsures (r ∷ rs) (m >>= λ e. rest >>= λ es. ok (e ∷ es))
  one-Ensures r rs (ok e) (ok es) h k = (ground (arith, h.0, k.0), (h.1, k.1))
  one-Ensures r rs (ok e) (err x) h k = StopsAt-cons r rs e x h.0 h.1 k
  one-Ensures r rs (ok e) (fault x) h k = k
  one-Ensures r rs (err x) rest h k = record {
    built = [];
    reference = r;
    after = rs;
    split = refl;
    sound = tt;
    refused = h;
  }
  one-Ensures r rs (fault x) rest h k = h

  construct_all-Ensures :
      FactoriesReturn
      → (rs : List ModuleReference)
      → ((r : ModuleReference) → Set.contains rs r ≡ true → is_some (get catalog r) ≡ true)
      → ConstructEnsures rs (construct_all rs)
  unfolding construct_all Set.contains
  construct_all-Ensures returns [] known = (refl, tt)
  construct_all-Ensures returns (r ∷ rs) known =
      one-Ensures r rs (construct_entry r) (construct_all rs)
        (construct_entry-Ensures returns r (known r (ground (arith, ==_iff r r))))
        (construct_all-Ensures returns rs (λ x c. known x (ground arith)))

  -- Where factories return and every resolved reference has an entry, `construct` returns without a
  -- panic: either with one registration for each resolved reference, in their order, which is the
  -- product of the entry's factory and agrees with the entry in its identifier and in the set of its
  -- dependencies; or with an error of the first reference whose entry does not agree, or whose factory
  -- failed, while those before it have such registrations.
  pub construct-Ensures :
      FactoriesReturn
      → (resolved : Discoveries)
      → ((r : ModuleReference)
          → Map.contains_key resolved r ≡ true
          → is_some (get catalog r) ≡ true)
      → ConstructEnsures (Map.keys resolved) (construct resolved)
  unfolding construct
  construct-Ensures returns resolved known =
      construct_all-Ensures returns (Map.keys resolved)
        (λ r c. known r (sym (contains-keys resolved r) ∙ c))
