-- ===== src/Runtime/Identity/Code.antt =====
-- What the pieces of a canonical text can be read back from it.
use Prim.Native.Nat.{◌%◌, ◌/◌}
use kernis.Base.{
  ℕ, zero, suc, ◌+◌, ◌-◌, ◌*◌, ◌<◌, ◌≡◌, refl, sym, ap, ◌∙◌, Bool, true, false, ◌&&◌, List, [], ◌∷◌,
  ◌++◌, ltb, leb, length, codes, String, map, arith, Bool-cases, inl, inr,
}
use kernis.Runtime.Identity.{
  digits, to_string, byte_len, push_tag, push_count, push_value, push_each,
}

-- Equal beginnings leave equal rests.
pub append-cancel : (p x y : List ℕ) → p ++ x ≡ p ++ y → x ≡ y
append-cancel [] x y h = h
append-cancel (c ∷ p) x y h = append-cancel p x y (ground arith)

pub push_tag-cancel : (tag : String) (x y : List ℕ) → push_tag tag x ≡ push_tag tag y → x ≡ y
unfolding push_tag
push_tag-cancel tag x y h = append-cancel (codes tag) x y (append-cancel (codes "#") _ _ h)

-- The number of decimal digits.
of_digits : ℕ → List ℕ → ℕ
of_digits n [] = n
of_digits n (d ∷ ds) = of_digits (n * 10 + (d - 48)) ds

of_digits-snoc :
    (n : ℕ) (ds : List ℕ) (d : ℕ) → of_digits n (ds ++ d ∷ []) ≡ of_digits n ds * 10 + (d - 48)
unfolding of_digits
of_digits-snoc n [] d = refl
of_digits-snoc n (c ∷ ds) d = of_digits-snoc (n * 10 + (c - 48)) ds d

of_digits-digits : (fuel n : ℕ) → n < fuel → of_digits 0 (digits fuel n) ≡ n
unfolding digits of_digits
of_digits-digits zero n h = omega arith
of_digits-digits (suc fuel) n h = elim (Bool-cases (ltb n 10)) [
  | inl e ↦ ground arith
  | inr e ↦
      let rest = of_digits-digits fuel (n / 10) (ground arith) in
      ground (arith, rest, of_digits-snoc 0 (digits fuel (n / 10)) (48 + n % 10))
]

abbrev is_digit : ℕ → Bool
is_digit c = leb 48 c && leb c 57

abbrev all_digits : List ℕ → Bool
all_digits [] = true
all_digits (c ∷ cs) = is_digit c && all_digits cs

all_digits-snoc :
    (ds : List ℕ) (d : ℕ)
    → all_digits ds ≡ true
    → is_digit d ≡ true
    → all_digits (ds ++ d ∷ []) ≡ true
all_digits-snoc [] d h k = ground arith
all_digits-snoc (c ∷ ds) d h k = ground (arith, all_digits-snoc ds d)

all_digits-digits : (fuel n : ℕ) → all_digits (digits fuel n) ≡ true
unfolding digits
all_digits-digits zero n = refl
all_digits-digits (suc fuel) n = elim (Bool-cases (ltb n 10)) [
  | inl e ↦ ground arith
  | inr e ↦ ground (
    arith,
    all_digits-snoc (digits fuel (n / 10)) (48 + n % 10) (all_digits-digits fuel (n / 10)),
  )
]

-- Digits end where another sign stands.
digits-cancel :
    (ds es : List ℕ) (t : ℕ) (x y : List ℕ)
    → all_digits ds ≡ true
    → all_digits es ≡ true
    → is_digit t ≡ false
    → ds ++ t ∷ x ≡ es ++ t ∷ y
    → (ds ≡ es) × (x ≡ y)
digits-cancel [] [] t x y h k l e = (refl, ground arith)
digits-cancel [] (c ∷ es) t x y h k l e = ground arith
digits-cancel (c ∷ ds) [] t x y h k l e = ground arith
digits-cancel (c ∷ ds) (b ∷ es) t x y h k l e =
    let rest = digits-cancel ds es t x y (ground arith) (ground arith) l (ground arith) in
    (ground (arith, rest.0), rest.1)

to_string-cancel :
    (n m t : ℕ) (x y : List ℕ)
    → is_digit t ≡ false
    → to_string n ++ t ∷ x ≡ to_string m ++ t ∷ y
    → (n ≡ m) × (x ≡ y)
unfolding to_string
to_string-cancel n m t x y l e =
    let (same, rest) =
      digits-cancel (digits (suc n) n) (digits (suc m) m) t x y (all_digits-digits (suc n) n)
        (all_digits-digits (suc m) m) l e in
    (
      sym (of_digits-digits (suc n) n (omega arith))
          ∙ ap (of_digits 0) same
          ∙ of_digits-digits (suc m) m (omega arith),
      rest,
    )

pub push_count-cancel :
    (n m : ℕ) (x y : List ℕ) → push_count n x ≡ push_count m y → (n ≡ m) × (x ≡ y)
unfolding push_count
push_count-cancel n m x y e = to_string-cancel n m 93 x y refl (append-cancel (codes "[") _ _ e)

-- Texts of one length in bytes end together.
bytes-cancel : (v w x y : List ℕ) → byte_len v ≡ byte_len w → v ++ x ≡ w ++ y → (v ≡ w) × (x ≡ y)
bytes-cancel [] [] x y l e = (refl, e)
bytes-cancel [] (c ∷ w) x y l e = ground arith
bytes-cancel (c ∷ v) [] x y l e = ground arith
bytes-cancel (c ∷ v) (d ∷ w) x y l e =
    let rest = bytes-cancel v w x y (ground arith) (ground arith) in
    (ground (arith, rest.0), rest.1)

pub push_value-cancel : (v w x y : List ℕ) → push_value v x ≡ push_value w y → (v ≡ w) × (x ≡ y)
unfolding push_value
push_value-cancel v w x y e =
    let (len, rest) =
      to_string-cancel (byte_len v) (byte_len w) 58 (v ++ x) (w ++ y) refl
        (append-cancel (codes "%") _ _ e) in
    bytes-cancel v w x y len rest

-- Lists of one length, each piece of which can be read back up to a normal form.
pub push_each-cancel :
    {A B : Type 0} (push : A → List ℕ → List ℕ) (normal : A → B)
    → ((a b : A) (x y : List ℕ) → push a x ≡ push b y → (normal a ≡ normal b) × (x ≡ y))
    → (xs ys : List A) (x y : List ℕ) → length xs ≡ length ys
    → push_each push xs x ≡ push_each push ys y
    → (map normal xs ≡ map normal ys) × (x ≡ y)
push_each-cancel push normal one [] [] x y l e = (refl, e)
push_each-cancel push normal one [] (b ∷ ys) x y l e = ground arith
push_each-cancel push normal one (a ∷ xs) [] x y l e = ground arith
push_each-cancel push normal one (a ∷ xs) (b ∷ ys) x y l e =
    let (same, rest) = one a b (push_each push xs x) (push_each push ys y) e in
    let (sames, end) = push_each-cancel push normal one xs ys x y (ground arith) rest in
    (ground (arith, same, sames), end)
