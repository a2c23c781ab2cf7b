-- ===== src/Loader/Resolve/Cycles/Rotate.antt =====
-- A cycle rotated is a cycle.
use kernis.Base.{
  ℕ, zero, suc, ◌≡◌, ◌≤◌, refl, ap, subst, sym, ◌∙◌, List, [], ◌∷◌, ◌++◌, arith, length, drop, take,
  append_assoc, append-nil, Outcome, err, Ord,
}
use kernis.Dfs.Path.{IsChain, IsCycle}
use kernis.Loader.Reference.{ModuleReference, reference_ord}
use kernis.Loader.Error.{LoaderError, dependency_cycle}
use kernis.Loader.Resolve.Cycles.{least, rotate_to_smallest, close_cycle, report}

module _ (E : ModuleReference → ModuleReference → Type 0) where
  -- A chain through `z` is a chain to it and a chain from it.
  IsChain-split :
      (p : List ModuleReference) (z : ModuleReference) (q : List ModuleReference)
      → IsChain E (p ++ z ∷ q)
      → IsChain E (p ++ z ∷ []) × IsChain E (z ∷ q)
  IsChain-split [] z q h = (tt, h)
  IsChain-split (x ∷ []) z q h = ((h.0, tt), h.1)
  IsChain-split (x ∷ y ∷ p) z q h = let (a, b) = IsChain-split (y ∷ p) z q h.1 in ((h.0, a), b)

  IsChain-join :
      (p : List ModuleReference) (z : ModuleReference) (q : List ModuleReference)
      → IsChain E (p ++ z ∷ [])
      → IsChain E (z ∷ q)
      → IsChain E (p ++ z ∷ q)
  IsChain-join [] z q h k = k
  IsChain-join (x ∷ []) z q h k = (h.0, k)
  IsChain-join (x ∷ y ∷ p) z q h k = (h.0, IsChain-join (y ∷ p) z q h.1 k)

  -- The two halves of a cycle in the other order.
  rotated :
      (x y : ModuleReference) (t d : List ModuleReference)
      → IsChain E ((x ∷ t) ++ ((y ∷ d) ++ x ∷ []))
      → IsChain E ((y ∷ d) ++ ((x ∷ t) ++ y ∷ []))
  rotated x y t d h =
      let (a, b) = IsChain-split (x ∷ t) y (d ++ x ∷ []) h in
      IsChain-join (y ∷ d) x (t ++ y ∷ []) b a

  -- A cycle that is cut before `y` and put together the other way round.
  cut :
      (r : ModuleReference) (rest u : List ModuleReference) (y : ModuleReference)
      (d : List ModuleReference)
      → r ∷ rest ≡ u ++ y ∷ d
      → IsChain E ((r ∷ rest) ++ r ∷ [])
      → IsChain E (((y ∷ d) ++ u) ++ y ∷ [])
  cut r rest [] y d e h =
      let same : r ≡ y = ground arith in
      subst (λ l. IsChain E (l ++ y ∷ [])) (sym (append-nil (y ∷ d)))
        (subst (λ l. IsChain E (l ++ y ∷ [])) e
          (subst (λ z. IsChain E ((r ∷ rest) ++ z ∷ [])) same h))
  cut r rest (x ∷ t) y d e h =
      let same : r ≡ x = ground arith in
      let whole : IsChain E (((x ∷ t) ++ (y ∷ d)) ++ x ∷ []) =
        subst (λ l. IsChain E (l ++ x ∷ [])) e
          (subst (λ z. IsChain E ((r ∷ rest) ++ z ∷ [])) same h) in
      subst (IsChain E) (sym (append_assoc (y ∷ d) (x ∷ t) (y ∷ [])))
        (rotated x y t d (subst (IsChain E) (append_assoc (x ∷ t) (y ∷ d) (x ∷ [])) whole))

  -- The part of a path from `r` on is a cycle with `r` behind it.
  suffix :
      (r : ModuleReference) (before rest path : List ModuleReference)
      → before ++ r ∷ rest ≡ path
      → IsChain E (path ++ r ∷ [])
      → IsChain E ((r ∷ rest) ++ r ∷ [])
  suffix r before rest path e h =
      (IsChain-split before r (rest ++ r ∷ []) (
        subst (IsChain E) (append_assoc before (r ∷ rest) (r ∷ []))
          (subst (λ l. IsChain E (l ++ r ∷ [])) (sym e) h))).1

least-lt : {K : Type 0} ⦃o : Ord K⦄ (x : K) (xs : List K) → (least x xs).0 ≤ length xs
unfolding least
least-lt x [] = omega arith
least-lt x (y ∷ ys) = ground (arith, least-lt y ys)

take-drop : {A : Type 0} (n : ℕ) (xs : List A) → take n xs ++ drop n xs ≡ xs
take-drop zero xs = refl
take-drop (suc n) [] = refl
take-drop (suc n) (x ∷ xs) = ap (λ l. x ∷ l) (take-drop n xs)

-- Fewer elements dropped than there are leave one.
drop-lt :
    {A : Type 0} (n : ℕ) (x : A) (xs : List A)
    → n ≤ length xs
    → (y : A) × (d : List A) × (drop n (x ∷ xs) ≡ y ∷ d)
drop-lt zero x xs h = (x, xs, refl)
drop-lt (suc n) x [] h = absurd (omega arith)
drop-lt (suc n) x (y ∷ ys) h = drop-lt n y ys (omega arith)

-- What is reported is a cycle.
abbrev pub Reports :
    (E : ModuleReference → ModuleReference → Type 0) → {A : Type 0} → Outcome LoaderError A → Type 0
Reports E (err (dependency_cycle p)) = IsCycle E p
Reports E _ = ⊥

-- A reference on the path, at the position that is known, is reported as a cycle.
pub report-Reports :
    (E : ModuleReference → ModuleReference → Type 0) (position : ℕ) (path : List ModuleReference)
    (r : ModuleReference) (rest : List ModuleReference)
    → position ≤ length path
    → drop position path ≡ r ∷ rest
    → IsChain E (path ++ r ∷ [])
    → Reports E (report position path)
unfolding report rotate_to_smallest close_cycle
report-Reports E position path r rest room e h =
    let n = (least r rest).0 in
    let (y, d, q) = drop-lt n r rest (least-lt r rest) in
    let u = take n (r ∷ rest) in
    let whole : r ∷ rest ≡ u ++ y ∷ d = sym (take-drop n (r ∷ rest)) ∙ ap (λ l. u ++ l) q in
    let chain =
      suffix E r (take position path) rest path
        (ap (λ l. take position path ++ l) (sym e) ∙ take-drop position path) h in
    let s : report position path ≡ err (dependency_cycle (((y ∷ d) ++ u) ++ y ∷ [])) =
      ground (arith, e, q) in
    subst (Reports E) (sym s)
      (record { start = y; rest = d ++ u; closes = refl; chain = cut E r rest u y d whole chain })
