-- ===== src/BTree/Map.antt =====
-- `BTreeMap<K, V>` as the list of its entries. `insert` keeps the order of the keys.
use Prim.Native.Nat.Ordering.{lt, eq, gt}
use kernis.Base.{
  ◌≡◌, refl, Bool, Option, none, some, List, [], ◌∷◌, map, arith, if◌then◌else◌, is_some, Ord, ◌==◌,
  ==_iff,
}

abbrev pub Map {ℓ κ} : Type ℓ → Type κ → Type (ℓ ⊔ κ)
Map K V = List (K × V)

module _ {ℓ κ} {K : Type ℓ} {V : Type κ} where
  abbrev pub keys : Map K V → List K
  keys = map (λ e. e.0)

  abbrev pub values : Map K V → List V
  values = map (λ e. e.1)

module _ {ℓ κ} {K : Type ℓ} {V : Type κ} ⦃o : Ord K⦄ where
  unfoldable pub get : Map K V → K → Option V
  get [] j = none
  get ((k, v) ∷ m) j = if k == j then some v else get m j

  abbrev pub contains_key : Map K V → K → Bool
  contains_key m j = is_some (get m j)

  unfoldable pub insert : Map K V → K → V → Map K V
  insert [] k v = (k, v) ∷ []
  insert ((j, w) ∷ m) k v =
      let rest = insert m k v in
      elim (o.cmp k j) [ lt ↦ (k, v) ∷ (j, w) ∷ m | eq ↦ (k, v) ∷ m | gt ↦ (j, w) ∷ rest ]

  unfoldable pub remove : Map K V → K → Map K V
  remove [] k = []
  remove ((j, w) ∷ m) k = let rest = remove m k in if j == k then rest else (j, w) ∷ rest

  -- A write through `get_mut`.
  unfoldable pub update : Map K V → K → (V → V) → Map K V
  update [] k f = []
  update ((j, w) ∷ m) k f =
      let rest = update m k f in if j == k then (j, f w) ∷ m else (j, w) ∷ rest

  pub get-insert :
      (m : Map K V) (k : K) (v : V) (j : K)
      → get (insert m k v) j ≡ (if k == j then some v else get m j)
  unfolding get insert
  get-insert [] k v j = refl
  get-insert ((i, w) ∷ m) k v j =
      ground (arith, get-insert m k v j, o.eq_of_cmp k i, ==_iff i j, ==_iff k j)

  pub get-remove :
      (m : Map K V) (k : K) (j : K) → get (remove m k) j ≡ (if k == j then none else get m j)
  unfolding get remove
  get-remove [] k j = ground arith
  get-remove ((i, w) ∷ m) k j = ground (arith, get-remove m k j, ==_iff i k, ==_iff i j, ==_iff k j)

  pub get-update :
      (m : Map K V) (k : K) (f : V → V) (j : K)
      → get (update m k f) j
        ≡ (if k == j then elim (get m j) [ none ↦ none | some v ↦ some (f v) ] else get m j)
  unfolding get update
  get-update [] k f j = ground arith
  get-update ((i, w) ∷ m) k f j =
      ground (arith, get-update m k f j, ==_iff i k, ==_iff i j, ==_iff k j)

  remove-absent : (m : Map K V) (k : K) → get m k ≡ none → remove m k ≡ m
  unfolding get remove
  remove-absent [] k h = refl
  remove-absent ((i, w) ∷ m) k h = ground (arith, remove-absent m k)

  -- What was not there can be inserted and removed again.
  pub remove-insert : (m : Map K V) (k : K) (v : V) → get m k ≡ none → remove (insert m k v) k ≡ m
  unfolding get insert remove
  remove-insert [] k v h = ground (arith, ==_iff k k)
  remove-insert ((i, w) ∷ m) k v h = ground (
    arith,
    remove-insert m k v,
    remove-absent m k,
    ==_iff k k,
    ==_iff i k,
    o.lt_of_gt i k,
    o.eq_of_cmp k i,
  )

  pub update-update :
      (m : Map K V) (k : K) (f g : V → V) → update (update m k f) k g ≡ update m k (λ v. g (f v))
  unfolding update
  update-update [] k f g = refl
  update-update ((i, w) ∷ m) k f g = ground (arith, update-update m k f g)

  pub update_id :
      (m : Map K V) (k : K) (f : V → V) (v : V) → get m k ≡ some v → f v ≡ v → update m k f ≡ m
  unfolding get update
  update_id [] k f v h e = refl
  update_id ((i, w) ∷ m) k f v h e = ground (arith, update_id m k f v)

  pub update-insert :
      (m : Map K V) (k : K) (v : V) (f : V → V)
      → get m k ≡ none
      → update (insert m k v) k f ≡ insert m k (f v)
  unfolding get insert update
  update-insert [] k v f h = ground (arith, ==_iff k k)
  update-insert ((i, w) ∷ m) k v f h =
      ground (arith, update-insert m k v f, ==_iff k k, ==_iff i k, o.lt_of_gt i k, o.eq_of_cmp k i)
