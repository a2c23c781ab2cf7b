-- ===== src/Base/Orders.antt =====
-- The bound `Ord` of Rust's ordered collections, with the laws that the trait asks of `cmp`.
use Prim.Native.Nat.{ℕ, compare, Ordering}
use Prim.Native.Nat.Ordering.{lt, eq, gt}
use mathlib.Core.Path.{◌≡◌, refl}
use mathlib.Core.Logic.{◌↔◌}
use mathlib.Core.Bool.{Bool, true, false}
use mathlib.Core.List.{List, [], ◌∷◌}
use native.Mathlib.Omega.{arith}

-- The bound `Eq`.
pub record Eq {ℓ} (K : Type ℓ) : Type ℓ where
  pub same : K → K → Bool
  pub same_iff : (a b : K) → (same a b ≡ true) ↔ (a ≡ b)

pub record IsLawful {ℓ} {K : Type ℓ} (cmp : K → K → Ordering) : Type ℓ where
  -- Transitive, and total with `cmp` as the test of equality.
  pub lt_trans : (low mid high : K) → cmp low mid ≡ lt → cmp mid high ≡ lt → cmp low high ≡ lt
  pub lt_of_gt : (a b : K) → cmp a b ≡ gt → cmp b a ≡ lt
  pub eq_of_cmp : (a b : K) → cmp a b ≡ eq → a ≡ b
  pub cmp_refl : (a : K) → cmp a a ≡ eq

pub record Ord {ℓ} (K : Type ℓ) : Type ℓ where
  pub cmp : K → K → Ordering
  pub lawful : IsLawful cmp
  pub open lawful use *

module _ {ℓ} {K : Type ℓ} ⦃o : Ord K⦄ where
  infix 50 ◌≺◌ ◌==◌
  abbrev pub ◌≺◌ : K → K → Type 0
  a ≺ b = o.cmp a b ≡ lt

  abbrev pub ◌==◌ : K → K → Bool
  a == b = elim (o.cmp a b) [ eq ↦ true | _ ↦ false ]

  pub ==_refl : (a : K) → (a == a) ≡ true
  ==_refl a = ground (arith, o.cmp_refl a)

  pub eq_of_== : (a b : K) → (a == b) ≡ true → a ≡ b
  eq_of_== a b h = o.eq_of_cmp a b (ground arith)

  pub ==_iff : (a b : K) → ((a == b) ≡ true) ↔ (a ≡ b)
  ==_iff a b = (eq_of_== a b, λ e. rw e (==_refl b))

-- Texts compare lexicographically by code point, which is the order of their UTF-8 bytes.
unfoldable pub cmp_text : List ℕ → List ℕ → Ordering
cmp_text [] [] = eq
cmp_text [] (y ∷ ys) = lt
cmp_text (x ∷ xs) [] = gt
cmp_text (x ∷ xs) (y ∷ ys) =
    let rest = cmp_text xs ys in elim (compare x y) [ lt ↦ lt | eq ↦ rest | gt ↦ gt ]

cmp_text_refl : (a : List ℕ) → cmp_text a a ≡ eq
unfolding cmp_text
cmp_text_refl [] = refl
cmp_text_refl (x ∷ xs) = ground (arith, cmp_text_refl xs)

eq_of-cmp_text : (a b : List ℕ) → cmp_text a b ≡ eq → a ≡ b
unfolding cmp_text
eq_of-cmp_text [] [] h = refl
eq_of-cmp_text [] (y ∷ ys) h = cc
eq_of-cmp_text (x ∷ xs) [] h = cc
eq_of-cmp_text (x ∷ xs) (y ∷ ys) h = ground (arith, eq_of-cmp_text xs ys)

lt_of_gt-cmp_text : (a b : List ℕ) → cmp_text a b ≡ gt → cmp_text b a ≡ lt
unfolding cmp_text
lt_of_gt-cmp_text [] [] h = cc
lt_of_gt-cmp_text [] (y ∷ ys) h = cc
lt_of_gt-cmp_text (x ∷ xs) [] h = refl
lt_of_gt-cmp_text (x ∷ xs) (y ∷ ys) h = ground (arith, lt_of_gt-cmp_text xs ys)

lt_trans-cmp_text : (a b c : List ℕ) → cmp_text a b ≡ lt → cmp_text b c ≡ lt → cmp_text a c ≡ lt
unfolding cmp_text
lt_trans-cmp_text [] [] c h k = cc
lt_trans-cmp_text [] (y ∷ ys) [] h k = cc
lt_trans-cmp_text [] (y ∷ ys) (z ∷ zs) h k = refl
lt_trans-cmp_text (x ∷ xs) [] c h k = cc
lt_trans-cmp_text (x ∷ xs) (y ∷ ys) [] h k = cc
lt_trans-cmp_text (x ∷ xs) (y ∷ ys) (z ∷ zs) h k = ground (arith, lt_trans-cmp_text xs ys zs)

pub cmp_text-IsLawful : IsLawful cmp_text
cmp_text-IsLawful = record {
  cmp_refl = cmp_text_refl;
  eq_of_cmp = eq_of-cmp_text;
  lt_of_gt = lt_of_gt-cmp_text;
  lt_trans = lt_trans-cmp_text;
}
