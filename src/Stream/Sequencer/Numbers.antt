-- ===== src/Stream/Sequencer/Numbers.antt =====
-- The numbers of the items that a sequencer emits: 1, 2, 3 and so on, each once, up to the last
-- one that fits.
use kernis.Base.{
  ℕ, suc, ◌+◌, ◌-◌, ◌≤◌, ◌<◌, ◌≡◌, refl, true, false, List, [], ◌∷◌, arith, ok, err, take, take-nil,
  Bool-cases, inl, inr,
}
use kernis.Core.{TextId}
use kernis.Stream.Item.{StreamItem, checked_next, max_sequence}
use kernis.Stream.Sequencer.{StreamSequencer, exhausted, new, advance, emit, emit_all}

-- The payloads as items with the numbers from `n` on.
abbrev pub numbered {ℓ} : {T : Type ℓ} → TextId → ℕ → List T → List (StreamItem T)
numbered id n [] = []
numbered id n (p ∷ ps) =
    record { stream_id = id; sequence = n; payload = p } ∷ numbered id (n + 1) ps

-- A sequencer of the stream that has emitted `k` items.
pub record HasEmitted (id : TextId) (k : ℕ) (s : StreamSequencer) : Type 0 where
  pub stream : s.stream_id ≡ id
  pub fits : k ≤ max_sequence
  pub live : s.is_exhausted ≡ false → s.next_sequence ≡ k + 1
  pub room : s.is_exhausted ≡ false → k < max_sequence
  pub spent : s.is_exhausted ≡ true → k ≡ max_sequence

pub new-HasEmitted : (id : TextId) → HasEmitted id 0 (new id)
unfolding new
new-HasEmitted id = record {
  stream = refl;
  fits = omega arith;
  live = λ e. refl;
  room = λ e. omega arith;
  spent = λ e. cc;
}

advance-HasEmitted :
    (id : TextId) (k : ℕ) (s : StreamSequencer)
    → HasEmitted id k s
    → s.is_exhausted ≡ false
    → HasEmitted id (k + 1) (advance s)
unfolding advance checked_next
advance-HasEmitted id k s h e = record {
  stream = ground (arith, h.stream);
  fits = omega (arith, h.room e);
  live = λ f. ground (arith, h.live e, h.room e);
  room = λ f. ground (arith, h.live e, h.room e);
  spent = λ f. ground (arith, h.live e, h.room e);
}

module _ {ℓ} {T : Type ℓ} where
  emit-live :
      (id : TextId) (k : ℕ) (p : T) (s : StreamSequencer)
      → HasEmitted id k s
      → s.is_exhausted ≡ false
      → emit p s ≡ (ok (record { stream_id = id; sequence = k + 1; payload = p }), advance s)
  unfolding emit
  emit-live id k p s h e = ground (arith, h.live e, h.stream)

  emit-spent :
      (p : T) (s : StreamSequencer)
      → s.is_exhausted ≡ true
      → emit p s ≡ (err (exhausted s.stream_id max_sequence), s)
  unfolding emit
  emit-spent p s e = ground arith

  emit_all-spent :
      (ps : List T) (s : StreamSequencer) → s.is_exhausted ≡ true → (emit_all ps s).0 ≡ []
  unfolding emit_all
  emit_all-spent [] s e = refl
  emit_all-spent (p ∷ ps) s e =
      rw (emit-spent p s e, emit_all) (rw (emit-spent p s e) (emit_all-spent ps s e))

  emit_all_from :
      (ps : List T) (id : TextId) (k : ℕ) (s : StreamSequencer)
      → HasEmitted id k s
      → (emit_all ps s).0 ≡ numbered id (k + 1) (take (max_sequence - k) ps)
  unfolding emit_all
  emit_all_from [] id k s h = rw (take-nil {A = T} (max_sequence - k)) refl
  emit_all_from (p ∷ ps) id k s h = elim (Bool-cases s.is_exhausted) [
    | inl e ↦
        let none_left : max_sequence - k ≡ 0 = omega (arith, h.spent e) in
        rw none_left (emit_all-spent (p ∷ ps) s e)
    | inr e ↦
        let one_left : max_sequence - k ≡ suc (max_sequence - (k + 1)) = omega (arith, h.room e) in
        let rest = emit_all_from ps id (k + 1) (advance s) (advance-HasEmitted id k s h e) in
        rw (one_left, emit-live id k p s h e, emit_all) (rw (emit-live id k p s h e) (rw rest))
  ]

-- A new sequencer gives its items the numbers 1, 2, 3 and so on, none left out and none twice, up
-- to 2^64 - 1; the emissions after that fail.
pub emit_all-numbered {ℓ} :
    {T : Type ℓ} (id : TextId) (ps : List T)
    → (emit_all ps (new id)).0 ≡ numbered id 1 (take max_sequence ps)
emit_all-numbered id ps = emit_all_from ps id 0 (new id) (new-HasEmitted id)
