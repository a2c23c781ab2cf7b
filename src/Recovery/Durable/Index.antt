-- ===== src/Recovery/Durable/Index.antt =====
-- A history of facts and the map that indexes it by a key.
use kernis.Base.{
  ◌≡◌, refl, Bool, true, false, not, ◌&&◌, Option, none, some, List, [], ◌∷◌, ◌++◌, ap, arith, Ord,
  ◌==◌, ==_iff, if◌then◌else◌, is_some,
}
use kernis.BTree.Map
use kernis.BTree.Map.{Map}
use kernis.BTree.Set
use kernis.BTree.Keys.{contains-keys}

module _ {K : Type 0} ⦃o : Ord K⦄ where
  -- No key stands twice.
  abbrev pub unique : List K → Bool
  unique [] = true
  unique (k ∷ ks) = not (Set.contains ks k) && unique ks

  pub unique-append :
      (ks : List K) (k : K)
      → Set.contains ks k ≡ false
      → unique ks ≡ true
      → unique (ks ++ k ∷ []) ≡ true
  unfolding Set.contains
  unique-append [] k h u = refl
  unique-append (j ∷ ks) k h u =
      ground (arith, unique-append ks k, Set.contains-append ks (k ∷ []) j, ==_iff k j, ==_iff j k)

  -- A fresh key keeps the keys of a map distinct.
  pub unique-insert :
      {V : Type 0} (m : Map K V) (k : K) (v : V)
      → Map.get m k ≡ none
      → unique (Map.keys m) ≡ true
      → unique (Map.keys (Map.insert m k v)) ≡ true
  unfolding Map.get Map.insert Set.contains
  unique-insert [] k v h u = refl
  unique-insert ((j, w) ∷ m) k v h u = ground (
    arith,
    unique-insert m k v,
    contains-keys m k,
    contains-keys (Map.insert m k v) j,
    contains-keys m j,
    Map.get-insert m k v j,
    o.eq_of_cmp k j,
    ==_iff k j,
    ==_iff j k,
  )

module _ {K V : Type 0} ⦃o : Ord K⦄ (key : V → K) where
  abbrev pub keys_of : List V → List K
  keys_of [] = []
  keys_of (v ∷ vs) = key v ∷ keys_of vs

  -- The entry of a history with the key.
  abbrev pub entry : List V → K → Option V
  entry [] k = none
  entry (v ∷ vs) k = if key v == k then some v else entry vs k

  pub entry-key : (vs : List V) (k : K) (v : V) → entry vs k ≡ some v → key v ≡ k
  entry-key [] k v h = cc
  entry-key (w ∷ vs) k v h = ground (arith, entry-key vs k v, ==_iff (key w) k)

  entry-append :
      (vs : List V) (v : V) (k : K)
      → entry (vs ++ v ∷ []) k
        ≡ elim (entry vs k) [ some w ↦ some w | none ↦ if key v == k then some v else none ]
  entry-append [] v k = refl
  entry-append (w ∷ vs) v k = ground (arith, entry-append vs v k)

  contains-keys_of : (vs : List V) (k : K) → Set.contains (keys_of vs) k ≡ is_some (entry vs k)
  unfolding Set.contains
  contains-keys_of [] k = refl
  contains-keys_of (v ∷ vs) k = ground (arith, contains-keys_of vs k)

  keys_of-append : (vs : List V) (v : V) → keys_of (vs ++ v ∷ []) ≡ keys_of vs ++ key v ∷ []
  keys_of-append [] v = refl
  keys_of-append (w ∷ vs) v = ap (◌∷◌ (key w)) (keys_of-append vs v)

  -- The entries after the first have other keys.
  pub entry-tail :
      (v : V) (vs : List V) (k : K) (w : V)
      → unique (keys_of (v ∷ vs)) ≡ true
      → entry vs k ≡ some w
      → (entry (v ∷ vs) k ≡ some w) × ((key v ≡ k) → ⊥)
  entry-tail v vs k w u h =
      let ne : (key v ≡ k) → ⊥ = λ e. ground (arith, contains-keys_of vs (key v)) in
      (ground (arith, ==_iff (key v) k), ne)

  pub entry-fresh :
      (v : V) (vs : List V) (k : K)
      → unique (keys_of (v ∷ vs)) ≡ true
      → key v ≡ k
      → entry vs k ≡ none
  entry-fresh v vs k u e = ground (arith, contains-keys_of vs k)

  -- The map holds the entries of the history, whose keys are distinct.
  pub record IsIndexed (history : List V) (index : Map K V) : Type 0 where
    pub entries : (k : K) → entry history k ≡ Map.get index k
    pub distinct : unique (keys_of history) ≡ true

  pub nil-IsIndexed : IsIndexed [] []
  unfolding Map.get
  nil-IsIndexed = record { entries = λ k. refl; distinct = refl }

  module _ (history : List V) (index : Map K V) (h : IsIndexed history index) where
    pub IsIndexed-key : (k : K) (v : V) → Map.get index k ≡ some v → key v ≡ k
    IsIndexed-key k v e = entry-key history k v (ground (arith, h.entries k))

    pub append-IsIndexed :
        (v : V)
        → Map.get index (key v) ≡ none
        → IsIndexed (history ++ v ∷ []) (Map.insert index (key v) v)
    append-IsIndexed v fresh = record {
      entries = λ k. ground (
        arith,
        entry-append history v k,
        h.entries k,
        Map.get-insert index (key v) v k,
        ==_iff (key v) k,
      );
      distinct = rw (keys_of-append history v) (
          unique-append (keys_of history) (key v)
            (ground (arith, contains-keys_of history (key v), h.entries (key v))) h.distinct);
    }

  -- The values of a map in its order, where each stands under its key.
  pub values-IsIndexed :
      (m : Map K V)
      → unique (Map.keys m) ≡ true
      → ((k : K) (v : V) → Map.get m k ≡ some v → key v ≡ k)
      → IsIndexed (Map.values m) m
  unfolding Map.get Set.contains
  values-IsIndexed [] u h = record { entries = λ k. refl; distinct = refl }
  values-IsIndexed ((j, w) ∷ m) u h =
      let at_head : key w ≡ j = h j w (ground (arith, ==_iff j j)) in
      let rest =
        values-IsIndexed m (ground arith)
          (λ k v e. h k v (ground (arith, contains-keys m j, ==_iff j k))) in
      record {
        entries = λ k. ground (arith, at_head, rest.entries k);
        distinct = ground (
          arith,
          at_head,
          rest.distinct,
          contains-keys_of (Map.values m) (key w),
          rest.entries j,
          contains-keys m j,
        );
      }
