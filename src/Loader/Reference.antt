-- ===== src/Loader/Reference.antt =====
-- crates/runtime-loader/src/reference.rs: module references and their total order.
use Prim.Native.Nat.{Ordering}
use Prim.Native.Nat.Ordering.{lt, eq, gt}
use kernis.Base.{ℕ, arith, List, Ord, IsLawful, cmp_text, cmp_text-IsLawful}
use kernis.Core.{TextId, cmp_id, cmp_id-IsLawful}

-- `ModuleVersion`: the text in it.
pub record ModuleVersion : Type 0 where
  pub value : List ℕ

pub record ModuleReference : Type 0 where
  pub id : TextId
  pub version : ModuleVersion

-- The derived `Ord`: by identifier, then by version.
abbrev pub cmp_reference : ModuleReference → ModuleReference → Ordering
cmp_reference a b = elim (cmp_id a.id b.id) [
  | lt ↦ lt
  | eq ↦ cmp_text a.version.value b.version.value
  | gt ↦ gt
]

pub cmp_reference-IsLawful : IsLawful cmp_reference
cmp_reference-IsLawful = record {
  lt_trans = λ a b c. ground (
    arith,
    cmp_id-IsLawful.lt_trans a.id b.id c.id,
    cmp_id-IsLawful.eq_of_cmp a.id b.id,
    cmp_id-IsLawful.eq_of_cmp b.id c.id,
    cmp_text-IsLawful.lt_trans a.version.value b.version.value c.version.value,
    cmp_id-IsLawful.cmp_refl a.id,
  );
  lt_of_gt = λ a b. ground (
    arith,
    cmp_id-IsLawful.lt_of_gt a.id b.id,
    cmp_id-IsLawful.eq_of_cmp a.id b.id,
    cmp_id-IsLawful.cmp_refl a.id,
    cmp_text-IsLawful.lt_of_gt a.version.value b.version.value,
  );
  eq_of_cmp = λ a b. ground (
    arith,
    cmp_id-IsLawful.eq_of_cmp a.id b.id,
    cmp_text-IsLawful.eq_of_cmp a.version.value b.version.value,
  );
  cmp_refl = λ a.
      ground (arith, cmp_id-IsLawful.cmp_refl a.id, cmp_text-IsLawful.cmp_refl a.version.value);
}

instance unfoldable pub reference_ord : Ord ModuleReference
reference_ord = record { cmp = cmp_reference; lawful = cmp_reference-IsLawful }
