-- ===== src/Stream/Lossless/Fifo.antt =====
-- The lossless buffer refines an unbounded queue: what it accepts comes out once and in order.
use kernis.Base.{
  ℕ, ◌≤◌, ◌≡◌, refl, ap, sym, ◌∙◌, Option, none, some, List, [], ◌∷◌, ◌++◌, arith, length,
  length-append, append_assoc, append-nil, Outcome, ok, err, fault,
}
use kernis.Stream.Item.{StreamItem, PushError}
use kernis.Stream.Lossless.{LosslessBuffer, new, try_push, pop}

-- A call of a client.
pub data Call {ℓ} (T : Type ℓ) : Type ℓ where
  push : StreamItem T → Call T
  take_one : Call T

-- What the calls put in and took out, and the buffer after them.
pub record Trace {ℓ} (T : Type ℓ) : Type ℓ where
  pub accepted : List (StreamItem T)
  pub popped : List (StreamItem T)
  pub buffer : LosslessBuffer T

module _ {ℓ} {T : Type ℓ} where
  abbrev accept :
      StreamItem T
      → Outcome (PushError (StreamItem T)) (Unit {0})
      → List (StreamItem T)
      → List (StreamItem T)
  accept i (ok _) is = i ∷ is
  accept i (err _) is = is
  accept i (fault _) is = is

  abbrev emerge : Option (StreamItem T) → List (StreamItem T) → List (StreamItem T)
  emerge none is = is
  emerge (some i) is = i ∷ is

  unfoldable pub run : List (Call T) → LosslessBuffer T → Trace T
  run [] b = record { accepted = []; popped = []; buffer = b }
  run (push i ∷ cs) b =
      let (r, b') = try_push i b in
      let t = run cs b' in record t { accepted = accept i r t.accepted }
  run (take_one ∷ cs) b =
      let (o, b') = pop b in let t = run cs b' in record t { popped = emerge o t.popped }

  try_push-order :
      (i : StreamItem T) (b : LosslessBuffer T) (is : List (StreamItem T))
      → b.items ++ accept i (try_push i b).0 is ≡ (try_push i b).1.items ++ is
  unfolding try_push
  try_push-order i b is = ground (arith, append_assoc b.items (i ∷ []) is)

  emerge-append :
      (o : Option (StreamItem T)) (is js : List (StreamItem T))
      → emerge o (is ++ js) ≡ emerge o is ++ js
  emerge-append none is js = refl
  emerge-append (some i) is js = refl

  pop-order : (b : LosslessBuffer T) → b.items ≡ emerge (pop b).0 (pop b).1.items
  unfolding pop
  pop-order b = ground arith

  run_order :
      (cs : List (Call T)) (b : LosslessBuffer T)
      → b.items ++ (run cs b).accepted ≡ (run cs b).popped ++ (run cs b).buffer.items
  unfolding run
  run_order [] b = append-nil b.items
  run_order (push i ∷ cs) b = try_push-order i b _ ∙ run_order cs (try_push i b).1
  run_order (take_one ∷ cs) b =
      let (o, b') = pop b in
      let t = run cs b' in
      ap (λ is. is ++ t.accepted) (pop-order b)
      ∙ sym (emerge-append o b'.items t.accepted)
      ∙ ap (emerge o) (run_order cs b')
      ∙ emerge-append o t.popped t.buffer.items

  try_push-capacity :
      (i : StreamItem T) (b : LosslessBuffer T)
      → length b.items ≤ b.capacity
      → (length (try_push i b).1.items ≤ (try_push i b).1.capacity)
        × ((try_push i b).1.capacity ≡ b.capacity)
  unfolding try_push
  try_push-capacity i b h = ground (arith, length-append b.items (i ∷ []))

  pop-capacity :
      (b : LosslessBuffer T)
      → length b.items ≤ b.capacity
      → (length (pop b).1.items ≤ (pop b).1.capacity) × ((pop b).1.capacity ≡ b.capacity)
  unfolding pop
  pop-capacity b h = ground arith

  run_capacity :
      (cs : List (Call T)) (b : LosslessBuffer T)
      → length b.items ≤ b.capacity
      → length (run cs b).buffer.items ≤ b.capacity
  unfolding run
  run_capacity [] b h = h
  run_capacity (push i ∷ cs) b h =
      let (fits, same) = try_push-capacity i b h in
      omega (arith, run_capacity cs (try_push i b).1 fits)
  run_capacity (take_one ∷ cs) b h =
      let (fits, same) = pop-capacity b h in omega (arith, run_capacity cs (pop b).1 fits)

new-empty {ℓ} :
    {T : Type ℓ} (n : ℕ) (b : LosslessBuffer T) → new n ≡ ok b → (b.items ≡ []) × (b.capacity ≡ n)
unfolding new
new-empty n b e = ground arith

-- Whatever a client calls on a new buffer of `n` slots: the items that it accepted are those that
-- came out followed by those that are pending, in one order, so none is lost, doubled or overtaken;
-- and never more than `n` are pending.
pub run_lossless {ℓ} :
    {T : Type ℓ} (n : ℕ) (b : LosslessBuffer T) (cs : List (Call T))
    → new n ≡ ok b
    → ((run cs b).accepted ≡ (run cs b).popped ++ (run cs b).buffer.items)
      × (length (run cs b).buffer.items ≤ n)
run_lossless n b cs e =
    let (empty, capacity) = new-empty n b e in
    (
      ap (λ is. is ++ (run cs b).accepted) (sym empty) ∙ run_order cs b,
      omega (arith, run_capacity cs b (omega (arith, ap length empty))),
    )
