-- ===== src/Stream/Tracker/Observe.antt =====
-- What the observations say: each is the right one, they account for every number up to the newest,
-- and over a sequencer's own items they report no loss.
use kernis.Base.{
  ℕ, zero, suc, ◌+◌, ◌-◌, ◌≤◌, ◌<◌, ◌≡◌, refl, Option, none, some, List, [], ◌∷◌, arith, ok, take,
  length, Outcome, ==_iff,
}
use kernis.Core.{TextId, id_ord}
use kernis.Stream.Item.{Sequence, StreamItem, checked_next, max_sequence}
use kernis.Stream.Sequencer.Numbers.{numbered, emit_all-numbered}
use kernis.Stream.Sequencer
use kernis.Stream.Tracker.{
  SequenceObservation, first, in_order, gap, duplicate_or_reordered, StreamError, SequenceTracker,
  new, classify, observe, observe_all,
}

-- A number that a stream can carry.
abbrev pub IsSequence : Sequence → Type 0
IsSequence a = (1 ≤ a) × (a ≤ max_sequence)

-- The newest number, 0 before the first item.
abbrev pub last_or_zero : Option Sequence → ℕ
last_or_zero none = 0
last_or_zero (some l) = l

-- What each observation says of the item's number and the newest number before it.
abbrev pub ObservationIs : Option Sequence → Sequence → SequenceObservation → Type 0
ObservationIs last a (first a') = (a' ≡ a) × (last ≡ none) × (a ≡ 1)
ObservationIs last a (in_order a') =
    (a' ≡ a) × (1 ≤ last_or_zero last) × (a ≡ last_or_zero last + 1)
ObservationIs last a (gap e a') = (a' ≡ a) × (e ≡ last_or_zero last + 1) × (e < a)
ObservationIs last a (duplicate_or_reordered l a') = (a' ≡ a) × (last ≡ some l) × (a ≤ l)

abbrev IsLast : Option Sequence → Type 0
IsLast none = Unit
IsLast (some l) = IsSequence l

-- For every number and every newest number before it the observation says what happened.
pub classify-IsRight :
    (last : Option Sequence) (a : Sequence)
    → IsLast last
    → IsSequence a
    → ObservationIs last a (classify last a)
unfolding classify checked_next
classify-IsRight none a h k = ground arith
classify-IsRight (some l) a h k = ground arith

-- Whether an observation is of a newer item, and how many numbers before the item it misses.
abbrev pub accepted : Outcome StreamError SequenceObservation → ℕ
accepted (ok (duplicate_or_reordered _ _)) = 0
accepted (ok _) = 1
accepted _ = 0

abbrev pub missed : Outcome StreamError SequenceObservation → ℕ
missed (ok (gap e a)) = a - e
missed _ = 0

abbrev pub total :
    (Outcome StreamError SequenceObservation → ℕ)
    → List (Outcome StreamError SequenceObservation)
    → ℕ
total f [] = 0
total f (r ∷ rs) = f r + total f rs

abbrev pub AreSequences {ℓ} : {T : Type ℓ} → List (StreamItem T) → Type 0
AreSequences [] = Unit
AreSequences (i ∷ is) = IsSequence i.sequence × AreSequences is

module _ {ℓ} {T : Type ℓ} where
  observe-account :
      (i : StreamItem T) (t : SequenceTracker)
      → IsSequence i.sequence
      → IsLast t.last
      → last_or_zero (observe i t).1.last
        ≡ last_or_zero t.last + (accepted (observe i t).0 + missed (observe i t).0)
  unfolding observe checked_next
  observe-account i t h k = ground arith

  observe-IsLast :
      (i : StreamItem T) (t : SequenceTracker)
      → IsSequence i.sequence
      → IsLast t.last
      → IsLast (observe i t).1.last
  unfolding observe
  observe-IsLast i t h k = ground arith

  -- The newest number is the count of the items that were newer than all before them, and of the
  -- numbers that the gaps before these left out.
  observe_all-account_from :
      (is : List (StreamItem T)) (t : SequenceTracker)
      → AreSequences is
      → IsLast t.last
      → last_or_zero (observe_all is t).1.last
        ≡ last_or_zero t.last
          + (total accepted (observe_all is t).0 + total missed (observe_all is t).0)
  unfolding observe_all
  observe_all-account_from [] t h k = omega arith
  observe_all-account_from (i ∷ is) t h k = omega (
    arith,
    observe-account i t h.0 k,
    observe_all-account_from is (observe i t).1 h.1 (observe-IsLast i t h.0 k),
  )

  -- The observations of items numbered from `n` on, none left out: in order from the second on.
  abbrev pub in_order_from : ℕ → List T → List (Outcome StreamError SequenceObservation)
  in_order_from n [] = []
  in_order_from n (p ∷ ps) = ok (in_order n) ∷ in_order_from (n + 1) ps

  abbrev pub from_first : List T → List (Outcome StreamError SequenceObservation)
  from_first [] = []
  from_first (p ∷ ps) = ok (first 1) ∷ in_order_from 2 ps

  observe-next :
      (id : TextId) (n : ℕ) (p : T)
      → n < max_sequence
      → observe
          (record { stream_id = id; sequence = n + 1; payload = p })
          (record { stream_id = id; last = some n })
        ≡ (ok (in_order (n + 1)), record { stream_id = id; last = some (n + 1) })
  unfolding observe checked_next
  observe-next id n p h = ground (arith, ==_iff id id)

  observe-first :
      (id : TextId) (p : T)
      → observe
          (record { stream_id = id; sequence = 1; payload = p })
          (record { stream_id = id; last = none })
        ≡ (ok (first 1), record { stream_id = id; last = some 1 })
  unfolding observe
  observe-first id p = ground (arith, ==_iff id id)

  observe_all-numbered :
      (ps : List T) (id : TextId) (n : ℕ)
      → n + length ps ≤ max_sequence
      → (observe_all (numbered id (n + 1) ps) (record { stream_id = id; last = some n })).0
        ≡ in_order_from (n + 1) ps
  unfolding observe_all
  observe_all-numbered [] id n h = refl
  observe_all-numbered (p ∷ ps) id n h =
      rw (observe-next id n p (omega arith), observe_all)
        (rw (observe_all-numbered ps id (n + 1) (omega arith)))

  take-fits : (n : ℕ) (ps : List T) → length (take n ps) ≤ n
  take-fits zero ps = omega arith
  take-fits (suc n) [] = omega arith
  take-fits (suc n) (p ∷ ps) = omega (arith, take-fits n ps)

  observe_all-first :
      (ps : List T) (id : TextId)
      → length ps ≤ max_sequence
      → (observe_all (numbered id 1 ps) (new id)).0 ≡ from_first ps
  unfolding observe_all new
  observe_all-first [] id h = refl
  observe_all-first (p ∷ ps) id h =
      let start : observe (record { stream_id = id; sequence = 1; payload = p })
            (record { stream_id = id; last = none })
          ≡ (ok (first 1), record { stream_id = id; last = some 1 }) =
        observe-first id p in
      rw (start, observe_all) (rw (observe_all-numbered ps id 1 (omega arith)))

-- A consumer that gets all the items of a sequencer in order observes the first one as the first
-- and every later one as in order: no gap, no duplicate and no foreign stream.
pub observe_all-emitted {ℓ} :
    {T : Type ℓ} (id : TextId) (ps : List T)
    → (observe_all (Sequencer.emit_all ps (Sequencer.new id)).0 (new id)).0
      ≡ from_first (take max_sequence ps)
observe_all-emitted id ps =
    rw (emit_all-numbered id ps)
      (observe_all-first (take max_sequence ps) id (take-fits max_sequence ps))

-- After any items, from whatever streams and in whatever order, the newest number that the tracker
-- holds is the count of the items that it took for newer ones plus the numbers that its gaps missed.
pub observe_all-account {ℓ} :
    {T : Type ℓ} (id : TextId) (is : List (StreamItem T))
    → AreSequences is
    → last_or_zero (observe_all is (new id)).1.last
      ≡ total accepted (observe_all is (new id)).0 + total missed (observe_all is (new id)).0
unfolding new
observe_all-account id is h = omega (arith, observe_all-account_from is (new id) h tt)
