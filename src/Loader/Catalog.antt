-- ===== src/Loader/Catalog.antt =====
-- crates/runtime-loader/src/catalog.rs: the catalog of module entries. `R` stands for
-- `ModuleRegistration` of the composition crate, of which the loader reads only a definition's
-- identifier and dependencies.
use kernis.Base.{
  ◌≡◌, refl, Bool, true, Option, none, some, List, [], ◌∷◌, ◌++◌, arith, if◌then◌else◌, length, ℕ,
  ==_iff, ◌==◌, Outcome, ok, err, fault, Bool-cases, inl, inr,
}
use kernis.Core.{TextId}
use kernis.BTree.Map
use kernis.BTree.Map.{Map}
use kernis.Loader.Reference.{ModuleReference, reference_ord}
use kernis.Loader.Error.{LoaderError, ModuleFactoryError, duplicate_catalog_entry}

-- What the loader reads of a registration: `registration.definition().id` and `.dependencies`.
pub record Registration (R : Type 0) : Type 0 where
  pub definition_id : R → TextId
  pub definition_dependencies : R → List TextId

-- `ModuleRegistrationFactory`
abbrev pub Factory : Type 0 → Type 0
Factory R = Unit {0} → Outcome ModuleFactoryError R

pub record CatalogEntry (R : Type 0) : Type 0 where
  pub reference : ModuleReference
  pub dependencies : List ModuleReference
  pub factory : Factory R

pub record ModuleCatalog (R : Type 0) : Type 0 where
  pub entries : Map ModuleReference (CatalogEntry R)

module _ {R : Type 0} where
  -- `CatalogEntry::new` and `with_factory`
  unfoldable pub new_entry : ModuleReference → Factory R → CatalogEntry R
  new_entry reference factory = record {
    reference = reference;
    dependencies = [];
    factory = factory;
  }

  unfoldable pub depends_on : CatalogEntry R → ModuleReference → CatalogEntry R
  depends_on entry dependency = record entry {
    dependencies = entry.dependencies ++ dependency ∷ [];
  }

  unfoldable pub depends_on_all : CatalogEntry R → List ModuleReference → CatalogEntry R
  depends_on_all entry deps = record entry { dependencies = entry.dependencies ++ deps }

  -- `ModuleCatalog::new`
  abbrev pub no_entries : ModuleCatalog R
  no_entries = record { entries = [] }

  unfoldable pub get : ModuleCatalog R → ModuleReference → Option (CatalogEntry R)
  get catalog reference = Map.get catalog.entries reference

  unfoldable pub contains : ModuleCatalog R → ModuleReference → Bool
  contains catalog reference = Map.contains_key catalog.entries reference

  unfoldable pub register : ModuleCatalog R → CatalogEntry R → Outcome LoaderError (ModuleCatalog R)
  register catalog entry =
      if Map.contains_key catalog.entries entry.reference
      then err (duplicate_catalog_entry entry.reference)
      else ok (record { entries = Map.insert catalog.entries entry.reference entry })

  unfoldable pub len : ModuleCatalog R → ℕ
  len catalog = length catalog.entries

  -- Each entry stands under its own reference.
  abbrev pub IsKeyed : ModuleCatalog R → Type 0
  IsKeyed catalog =
      (r : ModuleReference) (entry : CatalogEntry R)
      → get catalog r ≡ some entry
      → entry.reference ≡ r

  -- What `register` answers, by its result.
  abbrev pub RegisterEnsures :
      ModuleCatalog R → CatalogEntry R → Outcome LoaderError (ModuleCatalog R) → Type 0
  RegisterEnsures catalog entry (ok catalog') =
      (get catalog entry.reference ≡ none)
      × ((r : ModuleReference)
          → get catalog' r ≡ (if entry.reference == r then some entry else get catalog r))
      × (IsKeyed catalog → IsKeyed catalog')
  RegisterEnsures catalog entry (err e) =
      (e ≡ duplicate_catalog_entry entry.reference) × (contains catalog entry.reference ≡ true)
  RegisterEnsures catalog entry (fault x) = ⊥

  -- An entry is added, and nothing else changes, where its exact reference is free; otherwise the
  -- error names the reference. A catalog whose entries stand under their own references stays one.
  pub register-Ensures :
      (catalog : ModuleCatalog R) (entry : CatalogEntry R)
      → RegisterEnsures catalog entry (register catalog entry)
  unfolding register get contains
  register-Ensures catalog entry =
      elim (Bool-cases (Map.contains_key catalog.entries entry.reference)) [
        | inl there ↦ rw (there, register) (refl, there)
        | inr free ↦
            rw (free, register)
              (
                ground arith,
                λ r. Map.get-insert catalog.entries entry.reference entry r,
                λ keyed r e h. ground (
                  arith,
                  keyed r e,
                  Map.get-insert catalog.entries entry.reference entry r,
                  ==_iff entry.reference r,
                ),
              )
      ]
