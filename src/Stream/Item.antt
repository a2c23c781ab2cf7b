-- ===== src/Stream/Item.antt =====
-- `Sequence` and `StreamItem`.
use kernis.Base.{ℕ, Option, none, some, Outcome, ok, fault, panic}
use kernis.Core.{TextId, u64_max, checked_succ}

-- `Sequence`: the number in it.
abbrev pub Sequence : Type 0
Sequence = ℕ

-- `Sequence::FIRST`
abbrev pub first_sequence : Sequence
first_sequence = 1

-- `Sequence::MAX`
abbrev pub max_sequence : Sequence
max_sequence = u64_max

-- `Sequence::checked_next`
unfoldable pub checked_next : Sequence → Option Sequence
checked_next s = checked_succ s

-- `Sequence::next`
unfoldable pub next : Sequence → Outcome ⊥ Sequence
unfolding checked_next
next s = elim (checked_next s) [ none ↦ fault panic | some n ↦ ok n ]

pub record StreamItem {ℓ} (T : Type ℓ) : Type ℓ where
  pub stream_id : TextId
  pub sequence : Sequence
  pub payload : T

-- `StreamItem::map`
unfoldable pub map {ℓ κ} : {T : Type ℓ} {U : Type κ} → (T → U) → StreamItem T → StreamItem U
map f i = record { stream_id = i.stream_id; sequence = i.sequence; payload = f i.payload }

-- `BufferError`
pub data BufferError : Type 0 where
  zero_capacity : BufferError

-- `PushError`: the item comes back to the caller.
pub data PushError {ℓ} (A : Type ℓ) : Type ℓ where
  backpressure : A → PushError A
