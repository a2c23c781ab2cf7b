-- ===== src/Stream/Coalescing/Latest.antt =====
-- A coalescing buffer holds one item, the latest, of each identity, in the order of their pushes.
use kernis.Base.{
  ℕ, suc, ◌≤◌, ◌<◌, ◌≡◌, refl, ap, sym, subst, Bool, true, false, none, some, List, [], ◌∷◌, ◌++◌,
  arith, length, length-append, ok, err, ltb, ◌||◌, Eq, ==_iff, if◌then◌else◌, Bool-cases,
  Option-cases, List-cases, inl, inr, ◌↔◌,
}
use kernis.Core.{id_ord}
use kernis.Stream.Item.{backpressure}
use kernis.Stream.Coalescing.{
  KeyedStreamItem, CoalescingBuffer, matches, position, remove_at, try_push, pop, new,
}

module _ {ℓ κ} {K : Type ℓ} {T : Type κ} ⦃e : Eq K⦄ where
  -- The items of other identities.
  abbrev pub others : KeyedStreamItem K T → List (KeyedStreamItem K T) → List (KeyedStreamItem K T)
  others i [] = []
  others i (x ∷ xs) = if matches i x then others i xs else x ∷ others i xs

  abbrev pub has : KeyedStreamItem K T → List (KeyedStreamItem K T) → Bool
  has i [] = false
  has i (x ∷ xs) = if matches i x then true else has i xs

  -- No two items have one identity.
  abbrev pub IsDistinct : List (KeyedStreamItem K T) → Type 0
  IsDistinct [] = Unit
  IsDistinct (x ∷ xs) = (has x xs ≡ false) × IsDistinct xs

  matches_iff :
      (i j : KeyedStreamItem K T)
      → (matches i j ≡ true) ↔ ((j.key ≡ i.key) × (j.item.stream_id ≡ i.item.stream_id))
  matches_iff i j = (
    λ h. (
      (e.same_iff j.key i.key).0 (ground arith),
      (==_iff j.item.stream_id i.item.stream_id).0 (ground arith),
    ),
    λ h. ground (arith, e.same_iff j.key i.key, ==_iff j.item.stream_id i.item.stream_id),
  )

  matches_comm : (i j : KeyedStreamItem K T) → matches i j ≡ matches j i
  matches_comm i j = ground (
    arith,
    e.same_iff j.key i.key,
    e.same_iff i.key j.key,
    ==_iff j.item.stream_id i.item.stream_id,
    ==_iff i.item.stream_id j.item.stream_id,
  )

  matches_trans : (i j k : KeyedStreamItem K T) → matches i j ≡ true → matches i k ≡ matches j k
  matches_trans i j k h = ground (
    arith,
    e.same_iff j.key i.key,
    e.same_iff k.key i.key,
    e.same_iff k.key j.key,
    ==_iff j.item.stream_id i.item.stream_id,
    ==_iff k.item.stream_id i.item.stream_id,
    ==_iff k.item.stream_id j.item.stream_id,
  )

  has-matches :
      (i j : KeyedStreamItem K T) (xs : List (KeyedStreamItem K T))
      → matches i j ≡ true
      → has i xs ≡ has j xs
  has-matches i j [] h = refl
  has-matches i j (x ∷ xs) h = ground (arith, matches_trans i j x h, has-matches i j xs h)

  others-absent :
      (i : KeyedStreamItem K T) (xs : List (KeyedStreamItem K T))
      → has i xs ≡ false
      → others i xs ≡ xs
  others-absent i [] h = refl
  others-absent i (x ∷ xs) h = ground (arith, others-absent i xs)

  has-others :
      (i j : KeyedStreamItem K T) (xs : List (KeyedStreamItem K T))
      → has j xs ≡ false
      → has j (others i xs) ≡ false
  has-others i j [] h = refl
  has-others i j (x ∷ xs) h = ground (arith, has-others i j xs)

  has-others_self :
      (i : KeyedStreamItem K T) (xs : List (KeyedStreamItem K T)) → has i (others i xs) ≡ false
  has-others_self i [] = refl
  has-others_self i (x ∷ xs) = ground (arith, has-others_self i xs)

  has-snoc :
      (i j : KeyedStreamItem K T) (xs : List (KeyedStreamItem K T))
      → has j (xs ++ i ∷ []) ≡ (if has j xs then true else matches j i)
  has-snoc i j [] = ground arith
  has-snoc i j (x ∷ xs) = ground (arith, has-snoc i j xs)

  others-IsDistinct :
      (i : KeyedStreamItem K T) (xs : List (KeyedStreamItem K T))
      → IsDistinct xs
      → IsDistinct (others i xs)
  others-IsDistinct i [] h = tt
  others-IsDistinct i (x ∷ xs) h = elim (Bool-cases (matches i x)) [
    | inl m ↦ rw m (others-IsDistinct i xs h.1)
    | inr m ↦ rw m (has-others i x xs h.0, others-IsDistinct i xs h.1)
  ]

  snoc-IsDistinct :
      (i : KeyedStreamItem K T) (xs : List (KeyedStreamItem K T))
      → IsDistinct xs
      → has i xs ≡ false
      → IsDistinct (xs ++ i ∷ [])
  snoc-IsDistinct i [] h a = (refl, tt)
  snoc-IsDistinct i (x ∷ xs) h a = (
    ground (arith, has-snoc i x xs, matches_comm i x, h.0),
    snoc-IsDistinct i xs h.1 (ground arith),
  )

  -- What `position` and `remove_at` do together.
  position-absent :
      (i : KeyedStreamItem K T) (xs : List (KeyedStreamItem K T))
      → position i xs ≡ none
      → has i xs ≡ false
  unfolding position
  position-absent i [] h = refl
  position-absent i (x ∷ xs) h = ground (arith, position-absent i xs)

  remove_at-position :
      (i : KeyedStreamItem K T) (xs : List (KeyedStreamItem K T)) (n : ℕ)
      → IsDistinct xs
      → position i xs ≡ some n
      → (has i xs ≡ true)
        × (remove_at n xs ≡ others i xs)
        × (suc (length (others i xs)) ≡ length xs)
  unfolding position remove_at
  remove_at-position i [] n h p = cc
  remove_at-position i (x ∷ xs) n h p = elim (Bool-cases (matches i x)) [
    | inl m ↦ ground (arith, others-absent i xs, has-matches i x xs m, h.0)
    | inr m ↦ elim (Option-cases (position i xs)) [
      | inl q ↦ ground arith
      | inr (k, q) ↦ let (found, cut, shorter) = remove_at-position i xs k h.1 q in ground arith
    ]
  ]

  pub record IsCoalesced (b : CoalescingBuffer K T) : Type 0 where
    pub distinct : IsDistinct b.items
    pub bounded : length b.items ≤ b.capacity

  -- `try_push` on a buffer with one item of each identity.
  try_push_lem :
      (i : KeyedStreamItem K T) (b : CoalescingBuffer K T)
      → IsCoalesced b
      → try_push i b ≡ (
          if has i b.items || ltb (length b.items) b.capacity
          then (ok tt, record b { items = others i b.items ++ i ∷ [] })
          else (err (backpressure i), b))
  unfolding try_push
  try_push_lem i b h = elim (Option-cases (position i b.items)) [
    | inl q ↦
        let absent = position-absent i b.items q in
        ground (arith, others-absent i b.items absent, h.bounded)
    | inr (n, q) ↦
        let (found, cut, shorter) = remove_at-position i b.items n h.distinct q in ground arith
  ]

  length-others-le :
      (i : KeyedStreamItem K T) (xs : List (KeyedStreamItem K T)) → length (others i xs) ≤ length xs
  length-others-le i [] = omega arith
  length-others-le i (x ∷ xs) = ground (arith, length-others-le i xs)

  length-others-lt :
      (i : KeyedStreamItem K T) (xs : List (KeyedStreamItem K T))
      → has i xs ≡ true
      → length (others i xs) < length xs
  length-others-lt i [] h = cc
  length-others-lt i (x ∷ xs) h = ground (arith, length-others-le i xs, length-others-lt i xs)

  replaced-IsCoalesced :
      (i : KeyedStreamItem K T) (b : CoalescingBuffer K T)
      → IsCoalesced b
      → (has i b.items || ltb (length b.items) b.capacity) ≡ true
      → IsCoalesced (record b { items = others i b.items ++ i ∷ [] })
  replaced-IsCoalesced i b h c = record {
    distinct =
        snoc-IsDistinct i (others i b.items) (others-IsDistinct i b.items h.distinct)
          (has-others_self i b.items);
    bounded = ground (
      arith,
      h.bounded,
      length-append (others i b.items) (i ∷ []),
      length-others-le i b.items,
      length-others-lt i b.items,
    );
  }

  try_push-IsCoalesced :
      (i : KeyedStreamItem K T) (b : CoalescingBuffer K T)
      → IsCoalesced b
      → IsCoalesced (try_push i b).1
  try_push-IsCoalesced i b h =
      elim (Bool-cases (has i b.items || ltb (length b.items) b.capacity)) [
        | inl c ↦ rw (try_push_lem i b h, c) (replaced-IsCoalesced i b h c)
        | inr c ↦ rw (try_push_lem i b h, c) h
      ]

  pop-IsCoalesced : (b : CoalescingBuffer K T) → IsCoalesced b → IsCoalesced (pop b).1
  unfolding pop
  pop-IsCoalesced b h = elim (List-cases b.items) [
    | inl q ↦ rw (q, pop) h
    | inr (x, rest, q) ↦
        rw (q, pop)
          (record {
            distinct = (subst IsDistinct q h.distinct).1;
            bounded = omega (arith, h.bounded, ap length q);
          })
  ]

-- A call of a client.
pub data Call {ℓ κ} (K : Type ℓ) (T : Type κ) : Type (ℓ ⊔ κ) where
  push : KeyedStreamItem K T → Call K T
  take_one : Call K T

module _ {ℓ κ} {K : Type ℓ} {T : Type κ} ⦃e : Eq K⦄ where
  unfoldable pub run : List (Call K T) → CoalescingBuffer K T → CoalescingBuffer K T
  run [] b = b
  run (push i ∷ cs) b = run cs (try_push i b).1
  run (take_one ∷ cs) b = run cs (pop b).1

  run-IsCoalesced_from :
      (cs : List (Call K T)) (b : CoalescingBuffer K T) → IsCoalesced b → IsCoalesced (run cs b)
  unfolding run
  run-IsCoalesced_from [] b h = h
  run-IsCoalesced_from (push i ∷ cs) b h =
      run-IsCoalesced_from cs (try_push i b).1 (try_push-IsCoalesced i b h)
  run-IsCoalesced_from (take_one ∷ cs) b h = run-IsCoalesced_from cs (pop b).1 (pop-IsCoalesced b h)

  new-IsCoalesced : (n : ℕ) (b : CoalescingBuffer K T) → new n ≡ ok b → IsCoalesced b
  unfolding new
  new-IsCoalesced n b h =
      let empty : b.items ≡ [] = ground arith in
      record { distinct = subst IsDistinct (sym empty) tt; bounded = ground arith }

-- Whatever a client calls on a new coalescing buffer, it holds at most its capacity, and one item of
-- each identity `(stream_id, key)`.
pub run-IsCoalesced {ℓ κ} :
    {K : Type ℓ} {T : Type κ} ⦃e : Eq K⦄ (n : ℕ) (b : CoalescingBuffer K T) (cs : List (Call K T))
    → new n ≡ ok b
    → IsCoalesced (run cs b)
run-IsCoalesced n b cs h = run-IsCoalesced_from cs b (new-IsCoalesced n b h)

-- A push onto a coalescing buffer that holds at most its capacity, and one item of each identity
-- `(stream_id, key)`: if an item of the identity is pending, or there is room, the item is accepted,
-- the pending one of its identity is gone, the others keep their order and the new item stands last;
-- otherwise the buffer is as it was and the item comes back. Either way the buffer afterwards holds
-- at most its capacity, and one item of each identity.
pub try_push-coalesces {ℓ κ} :
    {K : Type ℓ} {T : Type κ} ⦃e : Eq K⦄ (i : KeyedStreamItem K T) (b : CoalescingBuffer K T)
    → IsCoalesced b
    → (try_push i b ≡ (
        if has i b.items || ltb (length b.items) b.capacity
        then (ok tt, record b { items = others i b.items ++ i ∷ [] })
        else (err (backpressure i), b)))
      × IsCoalesced (try_push i b).1
try_push-coalesces i b h = (try_push_lem i b h, try_push-IsCoalesced i b h)
