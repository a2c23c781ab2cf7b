-- ===== src/Stream/Lossy.antt =====
-- `LossyBuffer`: a bounded FIFO that drops its oldest item to make room.
pub mod Fifo
use kernis.Base.{
  ℕ, Option, none, some, List, [], ◌∷◌, ◌++◌, length, Outcome, ok, err, if◌then◌else◌, ◌=ℕ◌,
}
use kernis.Stream.Item.{StreamItem, BufferError, zero_capacity}

pub record LossyBuffer {ℓ} (T : Type ℓ) : Type ℓ where
  pub capacity : ℕ
  pub items : List (StreamItem T)

module _ {ℓ} {T : Type ℓ} where
  unfoldable pub new : ℕ → Outcome BufferError (LossyBuffer T)
  new capacity =
      if capacity =ℕ 0 then err zero_capacity else ok (record { capacity = capacity; items = [] })

  unfoldable pub pop : LossyBuffer T → Option (StreamItem T) × LossyBuffer T
  pop b = elim b.items [ [] ↦ (none, b) | i ∷ rest ↦ (some i, record b { items = rest }) ]

  unfoldable pub push : StreamItem T → LossyBuffer T → Option (StreamItem T) × LossyBuffer T
  push i b =
      let (dropped, b') = if length b.items =ℕ b.capacity then pop b else (none, b) in
      (dropped, record b' { items = b'.items ++ i ∷ [] })
