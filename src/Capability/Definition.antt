-- ===== src/Capability/Definition.antt =====
-- crates/capability-graph/src/definition.rs: capabilities, their dependencies, and generations.
use Prim.Native.Nat.{Ordering}
use kernis.Base.{
  ℕ, ap, Option, none, some, List, [], ◌++◌, Outcome, ok, fault, panic, Ord, IsLawful, codes,
}
use kernis.Core.{TextId, cmp_id, cmp_id-IsLawful, u64_max, checked_succ}
use kernis.BTree.Set

abbrev pub CapabilityId : Type 0
CapabilityId = TextId

pub record Capability : Type 0 where
  pub id : CapabilityId
  pub kind : List ℕ

pub record Dependency : Type 0 where
  pub id : CapabilityId

-- The derived `Ord` of `Dependency` is that of its identifier.
abbrev pub cmp_dependency : Dependency → Dependency → Ordering
cmp_dependency a b = cmp_id a.id b.id

pub cmp_dependency-IsLawful : IsLawful cmp_dependency
cmp_dependency-IsLawful = record {
  lt_trans = λ a b c h k. cmp_id-IsLawful.lt_trans a.id b.id c.id h k;
  lt_of_gt = λ a b h. cmp_id-IsLawful.lt_of_gt a.id b.id h;
  eq_of_cmp = λ a b h. ap (λ i. record { id = i }) (cmp_id-IsLawful.eq_of_cmp a.id b.id h);
  cmp_refl = λ a. cmp_id-IsLawful.cmp_refl a.id;
}

instance unfoldable pub dependency_ord : Ord Dependency
dependency_ord = record { cmp = cmp_dependency; lawful = cmp_dependency-IsLawful }

pub record CapabilityDefinition : Type 0 where
  pub id : CapabilityId
  pub kind : List ℕ
  pub replay_identity : List ℕ
  pub dependencies : List Dependency

-- `CapabilityDefinition::new`; the replay identity is `format!("{}:{kind}", id)`.
unfoldable pub new : CapabilityId → List ℕ → CapabilityDefinition
new id kind = record {
  id = id;
  kind = kind;
  replay_identity = id.value ++ codes ":" ++ kind;
  dependencies = [];
}

unfoldable pub with_replay_identity : CapabilityDefinition → List ℕ → CapabilityDefinition
with_replay_identity c replay_identity = record c { replay_identity = replay_identity }

unfoldable pub add_dependency : CapabilityDefinition → CapabilityId → CapabilityDefinition
add_dependency c dependency = record c {
  dependencies = Set.insert c.dependencies (record { id = dependency });
}

unfoldable pub depends_on : CapabilityDefinition → CapabilityId → CapabilityDefinition
unfolding add_dependency
depends_on c dependency = add_dependency c dependency

-- `impl From<Capability> for CapabilityDefinition`
unfoldable pub from_capability : Capability → CapabilityDefinition
unfolding new
from_capability c = new c.id c.kind

-- `Generation`: the number in it.
abbrev pub Generation : Type 0
Generation = ℕ

abbrev pub zero_generation : Generation
zero_generation = 0

abbrev pub first_generation : Generation
first_generation = 1

abbrev pub max_generation : Generation
max_generation = u64_max

-- `Generation::checked_next`
unfoldable pub checked_next : Generation → Option Generation
checked_next g = checked_succ g

-- `Generation::next`
unfoldable pub next : Generation → Outcome ⊥ Generation
unfolding checked_next
next g = elim (checked_next g) [ none ↦ fault panic | some n ↦ ok n ]
