-- ===== src/Stream/Sequencer.antt =====
-- `StreamSequencer`: the numbers that a producer gives its items.
pub mod Numbers
use kernis.Base.{
  Bool, true, false, Option, none, some, List, [], ◌∷◌, Outcome, ok, err, fault, if◌then◌else◌,
  ◌>>=◌,
}
use kernis.Core.{TextId}
use kernis.Stream.Item.{Sequence, first_sequence, max_sequence, checked_next, StreamItem}

pub data SequenceError : Type 0 where
  exhausted : TextId → Sequence → SequenceError

pub record StreamSequencer : Type 0 where
  pub stream_id : TextId
  pub next_sequence : Sequence
  pub is_exhausted : Bool

-- `StreamSequencer::new`
unfoldable pub new : TextId → StreamSequencer
new id = record { stream_id = id; next_sequence = first_sequence; is_exhausted = false }

-- What `emit` does with the sequence that it gave.
unfoldable pub advance : StreamSequencer → StreamSequencer
advance s = elim (checked_next s.next_sequence) [
  | some n ↦ record s { next_sequence = n }
  | none ↦ record s { is_exhausted = true }
]

module _ {ℓ} {T : Type ℓ} where
  unfoldable pub emit : T → StreamSequencer → Outcome SequenceError (StreamItem T) × StreamSequencer
  unfolding advance
  emit payload s = if s.is_exhausted then (err (exhausted s.stream_id max_sequence), s) else (
    ok (record { stream_id = s.stream_id; sequence = s.next_sequence; payload = payload }),
    advance s,
  )

  -- A producer that emits one payload after the other and keeps the items that it was given.
  unfoldable pub emit_all : List T → StreamSequencer → List (StreamItem T) × StreamSequencer
  emit_all [] s = ([], s)
  emit_all (p ∷ ps) s =
      let (r, s') = emit p s in
      let (items, s'') = emit_all ps s' in
      (elim r [ ok i ↦ i ∷ items | err _ ↦ items | fault _ ↦ items ], s'')
