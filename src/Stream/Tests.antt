-- ===== src/Stream/Tests.antt =====
-- Runs of the stream model on small inputs, and the theorems at them.
use kernis.Base.{
  ℕ, ◌≡◌, ◌≤◌, ◌+◌, refl, List, [], ◌∷◌, ◌++◌, ok, arith, take, length, Eq, ◌==◌, ==_iff,
}
use kernis.Core.{TextId, id, id_ord}
use kernis.Stream.Item.{StreamItem, max_sequence, checked_next}
use kernis.Stream.Sequencer
use kernis.Stream.Sequencer.{StreamSequencer, emit_all}
use kernis.Stream.Sequencer.Numbers.{numbered, emit_all-numbered}
use kernis.Stream.Tracker
use kernis.Stream.Tracker.{first, gap, in_order, duplicate_or_reordered, observe_all, classify}
use kernis.Stream.Tracker.Observe.{
  last_or_zero, total, accepted, missed, from_first, observe_all-emitted, observe_all-account,
}
use kernis.Stream.Lossless
use kernis.Stream.Lossless.Fifo as LosslessFifo
use kernis.Stream.Lossy
use kernis.Stream.Lossy.Fifo as LossyFifo
use kernis.Stream.Coalescing
use kernis.Stream.Coalescing.{KeyedStreamItem, CoalescingBuffer}
use kernis.Stream.Coalescing.Latest

abbrev output : TextId
output = id "output"

abbrev item : ℕ → ℕ → StreamItem ℕ
item n p = record { stream_id = output; sequence = n; payload = p }

-- All that a run computes with.
runs : Unit {0}
unfolding emit_all Sequencer.emit Sequencer.new observe_all Tracker.observe Tracker.new id_ord
    checked_next Lossless.new Lossless.try_push Lossless.pop LosslessFifo.run Lossy.new Lossy.push
    Lossy.pop LossyFifo.run Coalescing.new Coalescing.try_push Coalescing.pop Coalescing.position
    Coalescing.remove_at Latest.run
runs = tt

-- A lost item, an old one, and the last one again.
abbrev received : List (StreamItem ℕ)
received = item 1 10 ∷ item 4 40 ∷ item 2 20 ∷ item 5 50 ∷ []

observed :
    (observe_all received (Tracker.new output)).0
    ≡ ok (first 1) ∷ ok (gap 2 4) ∷ ok (duplicate_or_reordered 4 2) ∷ ok (in_order 5) ∷ []
unfolding runs
observed = refl

abbrev payloads : List ℕ
payloads = 10 ∷ 20 ∷ []

emit_all-numbered_example :
    (emit_all payloads (Sequencer.new output)).0 ≡ numbered output 1 (take max_sequence payloads)
emit_all-numbered_example = emit_all-numbered output payloads

observe_all-emitted_example :
    (observe_all (emit_all payloads (Sequencer.new output)).0 (Tracker.new output)).0
    ≡ from_first (take max_sequence payloads)
observe_all-emitted_example = observe_all-emitted output payloads

observe_all-account_example :
    last_or_zero (observe_all received (Tracker.new output)).1.last
    ≡ total accepted (observe_all received (Tracker.new output)).0
      + total missed (observe_all received (Tracker.new output)).0
observe_all-account_example = observe_all-account output received (omega arith)

abbrev lossless : Lossless.LosslessBuffer ℕ
lossless = record { capacity = 1; items = [] }

abbrev lossless_calls : List (LosslessFifo.Call ℕ)
lossless_calls =
    LosslessFifo.push (item 1 10)
    ∷ LosslessFifo.push (item 2 20)
    ∷ LosslessFifo.take_one
    ∷ LosslessFifo.push (item 3 30)
    ∷ []

lossless-new : Lossless.new 1 ≡ ok lossless
unfolding runs
lossless-new = refl

run_lossless_example :
    ((LosslessFifo.run lossless_calls lossless).accepted
      ≡ (LosslessFifo.run lossless_calls lossless).popped
        ++ (LosslessFifo.run lossless_calls lossless).buffer.items)
    × (length (LosslessFifo.run lossless_calls lossless).buffer.items ≤ 1)
run_lossless_example = LosslessFifo.run_lossless 1 lossless lossless_calls lossless-new

abbrev lossy : Lossy.LossyBuffer ℕ
lossy = record { capacity = 1; items = [] }

abbrev lossy_calls : List (LossyFifo.Call ℕ)
lossy_calls =
    LossyFifo.put (item 1 10)
    ∷ LossyFifo.put (item 2 20)
    ∷ LossyFifo.take_one
    ∷ LossyFifo.put (item 3 30)
    ∷ []

lossy-new : Lossy.new 1 ≡ ok lossy
unfolding runs
lossy-new = refl

run_lossy_example :
    ((LossyFifo.run lossy_calls lossy).pushed
      ≡ (LossyFifo.run lossy_calls lossy).gone ++ (LossyFifo.run lossy_calls lossy).buffer.items)
    × (length (LossyFifo.run lossy_calls lossy).buffer.items ≤ 1)
run_lossy_example = LossyFifo.run_lossy 1 lossy lossy_calls lossy-new

instance abbrev key_eq : Eq TextId
key_eq = record { same = ◌==◌; same_iff = ==_iff }

abbrev keyed : TextId → StreamItem ℕ → KeyedStreamItem TextId ℕ
keyed k i = record { key = k; item = i }

abbrev coalescing : CoalescingBuffer TextId ℕ
coalescing = record { capacity = 2; items = [] }

abbrev coalescing_calls : List (Latest.Call TextId ℕ)
coalescing_calls =
    Latest.push (keyed (id "a") (item 1 10)) ∷ Latest.push (keyed (id "b") (item 2 20)) ∷ []

coalescing-new : Coalescing.new 2 ≡ ok coalescing
unfolding runs
coalescing-new = refl

-- The progress of `a` is replaced, and stands behind that of `b`.
coalesced :
    (Coalescing.try_push
      (keyed (id "a") (item 3 30))
      (Latest.run coalescing_calls coalescing)).1.items
    ≡ keyed (id "b") (item 2 20) ∷ keyed (id "a") (item 3 30) ∷ []
unfolding runs
coalesced = refl

run-IsCoalesced_example : Latest.IsCoalesced (Latest.run coalescing_calls coalescing)
run-IsCoalesced_example = Latest.run-IsCoalesced 2 coalescing coalescing_calls coalescing-new
