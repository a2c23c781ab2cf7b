-- ===== src/Base/Equality.antt =====
-- The derived `==` of lists, options and wrappers, for the bound `Eq`.
use Prim.Native.Nat.{ℕ}
use mathlib.Core.Path.{◌≡◌}
use mathlib.Core.Logic.{◌↔◌}
use mathlib.Core.Bool.{Bool, true, false, ◌&&◌}
use mathlib.Core.Option.{Option, none, some}
use mathlib.Core.List.{List, [], ◌∷◌}
use native.Mathlib.Omega.{arith}
use kernis.Base.Tests.{◌=ℕ◌}
use kernis.Base.Orders.{Eq}

module _ {ℓ} {A : Type ℓ} ⦃e : Eq A⦄ where
  abbrev pub same_list : List A → List A → Bool
  same_list [] [] = true
  same_list [] (y ∷ ys) = false
  same_list (x ∷ xs) [] = false
  same_list (x ∷ xs) (y ∷ ys) = e.same x y && same_list xs ys

  pub same_list_iff : (xs ys : List A) → (same_list xs ys ≡ true) ↔ (xs ≡ ys)
  same_list_iff [] [] = ground arith
  same_list_iff [] (y ∷ ys) = ground arith
  same_list_iff (x ∷ xs) [] = ground arith
  same_list_iff (x ∷ xs) (y ∷ ys) = ground (arith, same_list_iff xs ys, e.same_iff x y)

  instance unfoldable pub list_eq : Eq (List A)
  list_eq = record { same = same_list; same_iff = same_list_iff }

  abbrev pub same_option : Option A → Option A → Bool
  same_option none none = true
  same_option (some a) (some b) = e.same a b
  same_option _ _ = false

  pub same_option_iff : (a b : Option A) → (same_option a b ≡ true) ↔ (a ≡ b)
  same_option_iff none none = ground arith
  same_option_iff none (some b) = ground arith
  same_option_iff (some a) none = ground arith
  same_option_iff (some a) (some b) = ground (arith, e.same_iff a b)

  instance unfoldable pub option_eq : Eq (Option A)
  option_eq = record { same = same_option; same_iff = same_option_iff }

pub same_nat_iff : (a b : ℕ) → ((a =ℕ b) ≡ true) ↔ (a ≡ b)
same_nat_iff a b = ground arith

instance unfoldable pub nat_eq : Eq ℕ
nat_eq = record { same = ◌=ℕ◌; same_iff = same_nat_iff }

module _ {ℓ κ} {A : Type ℓ} {B : Type κ} ⦃e : Eq A⦄ ⦃f : Eq B⦄ where
  abbrev pub same_pair : A × B → A × B → Bool
  same_pair p q = e.same p.0 q.0 && f.same p.1 q.1

  pub same_pair_iff : (p q : A × B) → (same_pair p q ≡ true) ↔ (p ≡ q)
  same_pair_iff p q = ground (arith, e.same_iff p.0 q.0, f.same_iff p.1 q.1)

  instance unfoldable pub pair_eq : Eq (A × B)
  pair_eq = record { same = same_pair; same_iff = same_pair_iff }
