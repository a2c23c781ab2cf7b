-- ===== src/Recovery/Physical/RoundTrip.antt =====
-- A row decodes to the state that it was encoded from, and to no other.
use Prim.Native.Nat.{◌%◌, ◌/◌, bit_xor}
use kernis.Base.{
  ℕ, zero, suc, ◌*◌, ◌^◌, ◌<◌, ◌≡◌, sym, ap, ◌∙◌, List, [], ◌∷◌, Outcome, ok, Outcome-cases, arith,
  inl, inr,
}
use kernis.Recovery.Durable.Facts.{
  StoreRevision, IdempotencyKey, DurableMutation, PersistedRunSnapshot,
}
use kernis.Recovery.Durable.State.{DurableRunState}
use kernis.Recovery.Durable.Ledger.{fnv}
use kernis.Recovery.Durable.Snapshot.{persisted_snapshot}
use kernis.Recovery.Durable.Restore.{persisted_snapshot-restores}
use kernis.Recovery.Physical.Format.{
  to_le_bytes, from_le_bytes, checksum, framed, encode_state, decode_payload, decode_state,
}

-- A word that fits its bytes is read back.
from_le_bytes-to_le_bytes :
    (width n : ℕ) → n < 256 ^ width → from_le_bytes (to_le_bytes width n) ≡ n
from_le_bytes-to_le_bytes zero n h = omega arith
from_le_bytes-to_le_bytes (suc width) n h =
    let rest = from_le_bytes-to_le_bytes width (n / 256) (omega arith) in omega (arith, rest)

fnv_bound : (hash : ℕ) (bytes : List ℕ) → hash < 2 ^ 64 → fnv hash bytes < 2 ^ 64
unfolding fnv
fnv_bound hash [] h = h
fnv_bound hash (b ∷ bytes) h =
    fnv_bound ((bit_xor hash b * 0x100000001b3) % 2 ^ 64) bytes (omega arith)

checksum_bound : (bytes : List ℕ) → checksum bytes < 2 ^ 64
unfolding checksum
checksum_bound bytes = fnv_bound 0xcbf29ce484222325 bytes (omega arith)

module _ (encode : IdempotencyKey → List DurableMutation → StoreRevision → List ℕ)
    (to_bytes : PersistedRunSnapshot → Outcome (List ℕ) (List ℕ))
    (from_bytes : List ℕ → Outcome (List ℕ) (PersistedRunSnapshot × List ℕ)) where
  -- What the store relies on in postcard: it writes the snapshot, and reads it back with nothing
  -- left over.
  pub record Codes (snapshot : PersistedRunSnapshot) : Type 0 where
    pub bytes : List ℕ
    pub written : to_bytes snapshot ≡ ok bytes
    pub read_back : from_bytes bytes ≡ ok (snapshot, [])

  -- The same of the snapshot of a state, if it has one.
  abbrev pub IsCoded : DurableRunState → Type 0
  IsCoded s =
      (snapshot : PersistedRunSnapshot) → persisted_snapshot encode s ≡ ok snapshot → Codes snapshot

  decode_state-framed :
      (payload : List ℕ)
      → decode_state encode to_bytes from_bytes (framed payload)
        ≡ decode_payload encode to_bytes from_bytes payload
  unfolding decode_state framed
  decode_state-framed payload =
      let word = from_le_bytes-to_le_bytes 8 (checksum payload) (checksum_bound payload) in
      ground (arith, word)

  -- Where postcard reads back what it writes, a state that is encoded as a row decodes to itself.
  pub encode_state-decode_state :
      (s : DurableRunState) (bytes : List ℕ)
      → IsCoded s
      → encode_state encode to_bytes from_bytes s ≡ ok bytes
      → decode_state encode to_bytes from_bytes bytes ≡ ok s
  unfolding encode_state decode_payload
  encode_state-decode_state s bytes codec h = elim (Outcome-cases (persisted_snapshot encode s)) [
    | inl (snapshot, saved) ↦
        let code = codec snapshot saved in
        let payload = code.bytes in
        let row : framed payload ≡ bytes = ground (arith, code.written) in
        let restored = persisted_snapshot-restores encode s snapshot saved in
        let decoded : decode_payload encode to_bytes from_bytes payload ≡ ok s =
          ground (arith, code.read_back, restored) in
        ap (decode_state encode to_bytes from_bytes) (sym row)
        ∙ decode_state-framed payload
        ∙ decoded
    | inr (inl (e, k)) ↦ ground arith
    | inr (inr (f, k)) ↦ ground arith
  ]

  -- A state that can be saved can be encoded.
  pub encode_state_ok :
      (s : DurableRunState) (snapshot : PersistedRunSnapshot)
      → IsCoded s
      → persisted_snapshot encode s ≡ ok snapshot
      → (bytes : List ℕ) × (encode_state encode to_bytes from_bytes s ≡ ok bytes)
  unfolding encode_state
  encode_state_ok s snapshot codec h =
      let code = codec snapshot h in (framed code.bytes, ground (arith, code.written))
