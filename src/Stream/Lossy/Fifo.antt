-- ===== src/Stream/Lossy/Fifo.antt =====
-- The lossy buffer takes every item, and gives each up in the order of arrival: to the client, or
-- to make room.
use kernis.Base.{
  ℕ, ◌-◌, ◌≤◌, ◌<◌, ◌≡◌, refl, ap, sym, ◌∙◌, Option, none, some, List, [], ◌∷◌, ◌++◌, arith, length,
  length-append, append_assoc, append-nil, ok,
}
use kernis.Stream.Item.{StreamItem}
use kernis.Stream.Lossy.{LossyBuffer, new, push, pop}

-- A call of a client.
pub data Call {ℓ} (T : Type ℓ) : Type ℓ where
  put : StreamItem T → Call T
  take_one : Call T

-- What the calls put in, what left the buffer, dropped or taken, and the buffer after them.
pub record Trace {ℓ} (T : Type ℓ) : Type ℓ where
  pub pushed : List (StreamItem T)
  pub gone : List (StreamItem T)
  pub buffer : LossyBuffer T

module _ {ℓ} {T : Type ℓ} where
  abbrev emerge : Option (StreamItem T) → List (StreamItem T) → List (StreamItem T)
  emerge none is = is
  emerge (some i) is = i ∷ is

  unfoldable pub run : List (Call T) → LossyBuffer T → Trace T
  run [] b = record { pushed = []; gone = []; buffer = b }
  run (put i ∷ cs) b =
      let (o, b') = push i b in
      let t = run cs b' in record t { pushed = i ∷ t.pushed; gone = emerge o t.gone }
  run (take_one ∷ cs) b =
      let (o, b') = pop b in let t = run cs b' in record t { gone = emerge o t.gone }

  emerge-append :
      (o : Option (StreamItem T)) (is js : List (StreamItem T))
      → emerge o (is ++ js) ≡ emerge o is ++ js
  emerge-append none is js = refl
  emerge-append (some i) is js = refl

  pop-order : (b : LossyBuffer T) → b.items ≡ emerge (pop b).0 (pop b).1.items
  unfolding pop
  pop-order b = ground arith

  push-order :
      (i : StreamItem T) (b : LossyBuffer T)
      → b.items ++ i ∷ [] ≡ emerge (push i b).0 (push i b).1.items
  unfolding push
  push-order i b = ground (arith, pop-order b, emerge-append (pop b).0 (pop b).1.items (i ∷ []))

  run_order :
      (cs : List (Call T)) (b : LossyBuffer T)
      → b.items ++ (run cs b).pushed ≡ (run cs b).gone ++ (run cs b).buffer.items
  unfolding run
  run_order [] b = append-nil b.items
  run_order (put i ∷ cs) b =
      let (o, b') = push i b in
      let t = run cs b' in
      sym (append_assoc b.items (i ∷ []) t.pushed)
      ∙ ap (λ is. is ++ t.pushed) (push-order i b)
      ∙ sym (emerge-append o b'.items t.pushed)
      ∙ ap (emerge o) (run_order cs b')
      ∙ emerge-append o t.gone t.buffer.items
  run_order (take_one ∷ cs) b =
      let (o, b') = pop b in
      let t = run cs b' in
      ap (λ is. is ++ t.pushed) (pop-order b)
      ∙ sym (emerge-append o b'.items t.pushed)
      ∙ ap (emerge o) (run_order cs b')
      ∙ emerge-append o t.gone t.buffer.items

  -- A buffer with room for an item that never holds more than it has room for.
  pub record Fits (n : ℕ) (b : LossyBuffer T) : Type ℓ where
    pub room : 0 < n
    pub capacity : b.capacity ≡ n
    pub bounded : length b.items ≤ n

  pop-length :
      (b : LossyBuffer T)
      → (length (pop b).1.items ≡ length b.items - 1) × ((pop b).1.capacity ≡ b.capacity)
  unfolding pop
  pop-length b = ground arith

  push-Fits : (n : ℕ) (i : StreamItem T) (b : LossyBuffer T) → Fits n b → Fits n (push i b).1
  unfolding push
  push-Fits n i b h = ground (
    arith,
    pop-length b,
    length-append (pop b).1.items (i ∷ []),
    length-append b.items (i ∷ []),
    h.room,
    h.capacity,
    h.bounded,
  )

  pop-Fits : (n : ℕ) (b : LossyBuffer T) → Fits n b → Fits n (pop b).1
  pop-Fits n b h = omega (arith, pop-length b)

  run-Fits : (n : ℕ) (cs : List (Call T)) (b : LossyBuffer T) → Fits n b → Fits n (run cs b).buffer
  unfolding run
  run-Fits n [] b h = h
  run-Fits n (put i ∷ cs) b h = run-Fits n cs (push i b).1 (push-Fits n i b h)
  run-Fits n (take_one ∷ cs) b h = run-Fits n cs (pop b).1 (pop-Fits n b h)

  new-Fits : (n : ℕ) (b : LossyBuffer T) → new n ≡ ok b → Fits n b × (b.items ≡ [])
  unfolding new
  new-Fits n b e = ground arith

-- Whatever a client calls on a new buffer of `n` slots: every item that it pushed has left the buffer,
-- dropped or taken, or is pending, in the order of arrival, so the items that are lost are always
-- older than those that are kept; and never more than `n` are pending.
pub run_lossy {ℓ} :
    {T : Type ℓ} (n : ℕ) (b : LossyBuffer T) (cs : List (Call T))
    → new n ≡ ok b
    → ((run cs b).pushed ≡ (run cs b).gone ++ (run cs b).buffer.items)
      × (length (run cs b).buffer.items ≤ n)
run_lossy n b cs e =
    let (fits, empty) = new-Fits n b e in
    (
      ap (λ is. is ++ (run cs b).pushed) (sym empty) ∙ run_order cs b,
      (run-Fits n cs b fits).bounded,
    )
