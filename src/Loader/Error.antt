-- ===== src/Loader/Error.antt =====
-- crates/runtime-loader/src/error.rs: why a reference or a resolution is refused.
use kernis.Base.{ℕ, Option, List}
use kernis.Core.{TextId}
use kernis.Loader.Reference.{ModuleReference}

pub record ModuleFactoryError : Type 0 where
  pub reason : List ℕ

pub data InvalidReferenceReason : Type 0 where
  blank_module_id blank_version reserved_version_delimiter : InvalidReferenceReason

pub data IncompatibleEntryReason : Type 0 where
  produced_identity_mismatch : (actual : TextId) → IncompatibleEntryReason
  declared_dependencies_disagree :
      (declared : List TextId) (produced : List TextId) → IncompatibleEntryReason

pub data LoaderError : Type 0 where
  invalid_reference : (value : List ℕ) (reason : InvalidReferenceReason) → LoaderError
  duplicate_catalog_entry : (reference : ModuleReference) → LoaderError
  duplicate_root_reference : (reference : ModuleReference) → LoaderError
  missing_reference :
      (requested : ModuleReference) (required_by : Option ModuleReference)
      (path : List ModuleReference)
      → LoaderError
  dependency_cycle : (path : List ModuleReference) → LoaderError
  incompatible_entry :
      (reference : ModuleReference) (reason : IncompatibleEntryReason) → LoaderError
  registration_construction_failed :
      (reference : ModuleReference) (source : ModuleFactoryError) → LoaderError
