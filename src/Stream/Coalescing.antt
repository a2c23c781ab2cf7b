-- ===== src/Stream/Coalescing.antt =====
-- `CoalescingBuffer`: a bounded FIFO in which an item replaces the pending one of its identity.
pub mod Latest
use kernis.Base.{
  ℕ, zero, suc, Bool, true, false, ◌&&◌, Option, none, some, List, [], ◌∷◌, ◌++◌, length, Outcome,
  ok, err, if◌then◌else◌, ◌=ℕ◌, Eq, ◌==◌,
}
use kernis.Core.{TextId, id_ord}
use kernis.Stream.Item.{StreamItem, BufferError, zero_capacity, PushError, backpressure}

pub record KeyedStreamItem {ℓ κ} (K : Type ℓ) (T : Type κ) : Type (ℓ ⊔ κ) where
  pub key : K
  pub item : StreamItem T

pub record CoalescingBuffer {ℓ κ} (K : Type ℓ) (T : Type κ) : Type (ℓ ⊔ κ) where
  pub capacity : ℕ
  pub items : List (KeyedStreamItem K T)

module _ {ℓ κ} {K : Type ℓ} {T : Type κ} where
  unfoldable pub new : ℕ → Outcome BufferError (CoalescingBuffer K T)
  new capacity =
      if capacity =ℕ 0 then err zero_capacity else ok (record { capacity = capacity; items = [] })

  unfoldable pub pop : CoalescingBuffer K T → Option (KeyedStreamItem K T) × CoalescingBuffer K T
  pop b = elim b.items [ [] ↦ (none, b) | i ∷ rest ↦ (some i, record b { items = rest }) ]

  -- `VecDeque::remove` with its result dropped.
  unfoldable pub remove_at : ℕ → List (KeyedStreamItem K T) → List (KeyedStreamItem K T)
  remove_at n [] = []
  remove_at zero (x ∷ xs) = xs
  remove_at (suc n) (x ∷ xs) = x ∷ remove_at n xs

module _ {ℓ κ} {K : Type ℓ} {T : Type κ} ⦃e : Eq K⦄ where
  -- The closure of `position`: the same key on the same stream.
  abbrev pub matches : KeyedStreamItem K T → KeyedStreamItem K T → Bool
  matches i existing = e.same existing.key i.key && existing.item.stream_id == i.item.stream_id

  unfoldable pub position : KeyedStreamItem K T → List (KeyedStreamItem K T) → Option ℕ
  position i [] = none
  position i (x ∷ xs) =
      if matches i x then some 0 else elim (position i xs) [ none ↦ none | some n ↦ some (suc n) ]

  unfoldable pub try_push :
      KeyedStreamItem K T
      → CoalescingBuffer K T
      → Outcome (PushError (KeyedStreamItem K T)) (Unit {0}) × CoalescingBuffer K T
  try_push i b = elim (position i b.items) [
    | some index ↦ (ok tt, record b { items = remove_at index b.items ++ i ∷ [] })
    | none ↦
        if length b.items =ℕ b.capacity
        then (err (backpressure i), b)
        else (ok tt, record b { items = b.items ++ i ∷ [] })
  ]
