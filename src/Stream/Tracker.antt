-- ===== src/Stream/Tracker.antt =====
-- `SequenceTracker`: what a consumer notices of the numbers.
pub mod Observe
use kernis.Base.{
  ℕ, ◌≡◌, Bool, true, false, not, Option, none, some, List, [], ◌∷◌, Outcome, ok, err, fault,
  if◌then◌else◌, ◌=ℕ◌, ltb, ◌==◌,
}
use kernis.Core.{TextId, id_ord}
use kernis.Stream.Item.{Sequence, first_sequence, checked_next, StreamItem}

pub data SequenceObservation : Type 0 where
  first in_order : Sequence → SequenceObservation
  -- expected, and actual
  gap : Sequence → Sequence → SequenceObservation
  -- last, and actual
  duplicate_or_reordered : Sequence → Sequence → SequenceObservation

pub data StreamError : Type 0 where
  -- expected, and actual
  stream_mismatch : TextId → TextId → StreamError

pub record SequenceTracker : Type 0 where
  pub stream_id : TextId
  pub last : Option Sequence

-- `SequenceTracker::new`
unfoldable pub new : TextId → SequenceTracker
new id = record { stream_id = id; last = none }

-- The match of `observe`.
unfoldable pub classify : Option Sequence → Sequence → SequenceObservation
classify none actual = if actual =ℕ first_sequence then first actual else gap first_sequence actual
classify (some last) actual = elim (checked_next last) [
  | none ↦ duplicate_or_reordered last actual
  | some expected ↦
      if actual =ℕ expected
      then in_order actual
      else if ltb expected actual
      then gap expected actual
      else duplicate_or_reordered last actual
]

-- `self.last` after the item: the newest sequence.
unfoldable pub newest : Option Sequence → Sequence → Option Sequence
newest none actual = some actual
newest (some last) actual = if ltb last actual then some actual else some last

module _ {ℓ} {T : Type ℓ} where
  unfoldable pub observe :
      StreamItem T → SequenceTracker → Outcome StreamError SequenceObservation × SequenceTracker
  unfolding classify newest
  observe i t =
      if not (i.stream_id == t.stream_id)
      then (err (stream_mismatch t.stream_id i.stream_id), t)
      else (ok (classify t.last i.sequence), record t { last = newest t.last i.sequence })

  -- A consumer that observes one item after the other.
  unfoldable pub observe_all :
      List (StreamItem T)
      → SequenceTracker
      → List (Outcome StreamError SequenceObservation) × SequenceTracker
  observe_all [] t = ([], t)
  observe_all (i ∷ is) t =
      let (r, t') = observe i t in let (rs, t'') = observe_all is t' in (r ∷ rs, t'')
