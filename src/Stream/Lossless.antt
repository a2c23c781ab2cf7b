-- ===== src/Stream/Lossless.antt =====
-- `LosslessBuffer`: a bounded FIFO that refuses what it cannot hold.
pub mod Fifo
use kernis.Base.{
  ℕ, Option, none, some, List, [], ◌∷◌, ◌++◌, length, Outcome, ok, err, if◌then◌else◌, ◌=ℕ◌,
}
use kernis.Stream.Item.{StreamItem, BufferError, zero_capacity, PushError, backpressure}

pub record LosslessBuffer {ℓ} (T : Type ℓ) : Type ℓ where
  pub capacity : ℕ
  pub items : List (StreamItem T)

module _ {ℓ} {T : Type ℓ} where
  unfoldable pub new : ℕ → Outcome BufferError (LosslessBuffer T)
  new capacity =
      if capacity =ℕ 0 then err zero_capacity else ok (record { capacity = capacity; items = [] })

  unfoldable pub try_push :
      StreamItem T
      → LosslessBuffer T
      → Outcome (PushError (StreamItem T)) (Unit {0}) × LosslessBuffer T
  try_push i b =
      if length b.items =ℕ b.capacity
      then (err (backpressure i), b)
      else (ok tt, record b { items = b.items ++ i ∷ [] })

  unfoldable pub pop : LosslessBuffer T → Option (StreamItem T) × LosslessBuffer T
  pop b = elim b.items [ [] ↦ (none, b) | i ∷ rest ↦ (some i, record b { items = rest }) ]
