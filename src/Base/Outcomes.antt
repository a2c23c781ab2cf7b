-- ===== src/Base/Outcomes.antt =====
-- Results of fallible code. `fault` stands for what Rust code cannot return: a panic, or the fuel
-- of a loop of the model running out.
use mathlib.Core.Path.{◌≡◌, refl}
use mathlib.Core.Logic.{◌⊎◌, inl, inr}

pub data Fault : Type 0 where
  panic out_of_fuel : Fault

pub data Outcome {ℓ κ} (E : Type ℓ) (A : Type κ) : Type (ℓ ⊔ κ) where
  ok : A → Outcome E A
  err : E → Outcome E A
  fault : Fault → Outcome E A

infixl 5 ◌>>=◌ ◌>>◌
abbrev pub ◌>>=◌ {ℓ κ μ} :
    {E : Type ℓ} {A : Type κ} {B : Type μ} → Outcome E A → (A → Outcome E B) → Outcome E B
ok a >>= f = f a
err e >>= f = err e
fault x >>= f = fault x

abbrev pub ◌>>◌ {ℓ κ μ} :
    {E : Type ℓ} {A : Type κ} {B : Type μ} → Outcome E A → Outcome E B → Outcome E B
m >> n = m >>= λ _. n

module _ {ℓ κ μ} {E : Type ℓ} {A : Type κ} {B : Type μ} where
  -- Two steps succeed only where each does.
  pub >>=-eq-ok :
      (step : Outcome E A) (next : A → Outcome E B) {last : B}
      → (step >>= next) ≡ ok last
      → (mid : A) × (step ≡ ok mid) × (next mid ≡ ok last)
  >>=-eq-ok (fault x) next h = cc
  >>=-eq-ok (err e) next h = cc
  >>=-eq-ok (ok mid) next h = (mid, refl, h)

  pub bind_assoc {ν} :
      {C : Type ν} (step : Outcome E A) (next : A → Outcome E B) (final : B → Outcome E C)
      → (step >>= next >>= final) ≡ (step >>= λ mid. next mid >>= final)
  bind_assoc (fault x) next final = refl
  bind_assoc (err e) next final = refl
  bind_assoc (ok mid) next final = refl

pub Outcome-cases {ℓ κ} :
    {E : Type ℓ} {A : Type κ} (o : Outcome E A)
    → ((a : A) × (o ≡ ok a)) ⊎ (((e : E) × (o ≡ err e)) ⊎ ((f : Fault) × (o ≡ fault f)))
Outcome-cases (ok a) = inl (a, refl)
Outcome-cases (err e) = inr (inl (e, refl))
Outcome-cases (fault f) = inr (inr (f, refl))
