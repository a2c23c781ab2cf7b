-- ===== src/Core.antt =====
-- crates/core/src/lib.rs: the stable textual identifier and the revision counter.
use Prim.Native.Nat.{Ordering}
use kernis.Base.{
  ℕ, ◌+◌, ◌-◌, ◌^◌, ◌≤◌, ◌≡◌, arith, ap, Bool, true, ◌||◌, ◌&&◌, Option, none, some, List, [], ◌∷◌,
  arith, leb, ltb, ◌=ℕ◌, if◌then◌else◌, Outcome, ok, err, fault, panic, Ord, Eq, ◌==◌, ==_iff,
  IsLawful, cmp_text, cmp_text-IsLawful, String, codes,
}

-- `Id`: a text that is not blank. A text is the list of its code points.
pub record TextId : Type 0 where
  pub value : List ℕ

pub data InvalidId : Type 0 where
  invalid_id : InvalidId

-- `char::is_whitespace`: the code points of the property White_Space.
unfoldable pub is_whitespace : ℕ → Bool
is_whitespace c =
    leb 9 c && leb c 13
    || c =ℕ 32
    || c =ℕ 0x85
    || c =ℕ 0xa0
    || c =ℕ 0x1680
    || leb 0x2000 c && leb c 0x200a
    || c =ℕ 0x2028
    || c =ℕ 0x2029
    || c =ℕ 0x202f
    || c =ℕ 0x205f
    || c =ℕ 0x3000

-- `value.trim().is_empty()`: only white space is trimmed away, and nothing is left.
unfoldable pub is_blank : List ℕ → Bool
is_blank [] = true
is_blank (c ∷ s) = is_whitespace c && is_blank s

-- `Id::new`
unfoldable pub new : List ℕ → Outcome InvalidId TextId
new value = if is_blank value then err invalid_id else ok (record { value = value })

-- `Id::as_str`
unfoldable pub as_str : TextId → List ℕ
as_str id = id.value

-- The derived `Ord` of `Id` is that of its text.
abbrev pub cmp_id : TextId → TextId → Ordering
cmp_id a b = cmp_text a.value b.value

pub cmp_id-IsLawful : IsLawful cmp_id
cmp_id-IsLawful = record {
  cmp_refl = λ a. cmp_text-IsLawful.cmp_refl a.value;
  eq_of_cmp =
      λ a b h. ap (λ v. record { value = v }) (cmp_text-IsLawful.eq_of_cmp a.value b.value h);
  lt_of_gt = λ a b h. cmp_text-IsLawful.lt_of_gt a.value b.value h;
  lt_trans = λ a b c h k. cmp_text-IsLawful.lt_trans a.value b.value c.value h k;
}

instance unfoldable pub id_ord : Ord TextId
unfolding cmp_text
id_ord = record { cmp = cmp_id; lawful = cmp_id-IsLawful }

-- The derived `Eq` of `Id`.
instance unfoldable pub id_eq : Eq TextId
unfolding id_ord
id_eq = record { same = λ a b. a == b; same_iff = λ a b. ==_iff a b }

-- An identifier written as a literal, for examples.
abbrev pub id : String → TextId
id s = record { value = codes s }

-- `u64::MAX`
abbrev pub u64_max : ℕ
u64_max = 2 ^ 64 - 1

-- `checked_add(1)` on a `u64`, which revisions and sequence numbers advance by.
abbrev pub checked_succ : ℕ → Option ℕ
checked_succ n = if ltb n u64_max then some (n + 1) else none

-- `Revision`: the number in it.
abbrev pub Revision : Type 0
Revision = ℕ

-- `Revision::ZERO`
abbrev pub zero_revision : Revision
zero_revision = 0

-- `Revision::MAX`
abbrev pub max_revision : Revision
max_revision = u64_max

-- `Revision::checked_next`
unfoldable pub checked_next : Revision → Option Revision
checked_next r = checked_succ r

-- `Revision::next`
unfoldable pub next : Revision → Outcome ⊥ Revision
unfolding checked_next
next r = elim (checked_next r) [ none ↦ fault panic | some n ↦ ok n ]

-- The next revision is one more, and fits its word.
pub checked_next_lem : (r n : Revision) → checked_next r ≡ some n → (n ≡ r + 1) × (n ≤ u64_max)
unfolding checked_next
checked_next_lem r n e = ground arith
