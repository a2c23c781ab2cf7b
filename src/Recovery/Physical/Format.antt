-- ===== src/Recovery/Physical/Format.antt =====
-- crates/workflow-recovery/src/physical.rs: the bytes of a row, `encode_state` and `decode_state`.
-- `to_bytes` and `from_bytes` stand for `postcard::to_allocvec` and `postcard::take_from_bytes` of a
-- snapshot; an error of postcard is its text.
use Prim.Native.Nat.{◌%◌, ◌/◌}
use kernis.Base.{
  ℕ, zero, suc, ◌+◌, ◌*◌, Bool, true, false, not, ◌&&◌, ◌||◌, List, [], ◌∷◌, ◌++◌, if◌then◌else◌,
  ◌=ℕ◌, ltb, length, take, drop, Outcome, ok, err, fault, ◌>>=◌, codes,
}
use kernis.Recovery.Durable.Facts.{
  StoreRevision, IdempotencyKey, DurableMutation, PersistedRunSnapshot, StoreError, io_failure,
  data_corruption, invalid_header, checksum_mismatch, trailing_bytes, unsupported_version,
  invalid_payload,
}
use kernis.Recovery.Durable.State.{DurableRunState, is_empty}
use kernis.Recovery.Durable.Apply.{Applied}
use kernis.Recovery.Durable.Ledger.{fnv}
use kernis.Recovery.Durable.Snapshot.{persisted_snapshot, from_persisted_snapshot}

abbrev pub format_magic : List ℕ
format_magic = codes "KERNIS-DURABLE-STATE"

abbrev pub format_version : ℕ
format_version = 5

abbrev pub checksum_len : ℕ
checksum_len = 8

-- `to_le_bytes` of a word of so many bytes.
abbrev pub to_le_bytes : ℕ → ℕ → List ℕ
to_le_bytes zero n = []
to_le_bytes (suc width) n = n % 256 ∷ to_le_bytes width (n / 256)

-- `from_le_bytes`
abbrev pub from_le_bytes : List ℕ → ℕ
from_le_bytes [] = 0
from_le_bytes (b ∷ bs) = b + 256 * from_le_bytes bs

-- `starts_with`
abbrev pub starts_with : List ℕ → List ℕ → Bool
starts_with bytes [] = true
starts_with [] (x ∷ prefix) = false
starts_with (b ∷ bytes) (x ∷ prefix) = b =ℕ x && starts_with bytes prefix

unfoldable pub checksum : List ℕ → ℕ
checksum bytes = fnv 0xcbf29ce484222325 bytes

abbrev pub map_err {ℓ κ μ} :
    {E : Type ℓ} {F : Type κ} {A : Type μ} → (E → F) → Outcome E A → Outcome F A
map_err f (ok a) = ok a
map_err f (err e) = err (f e)
map_err f (fault x) = fault x

-- The header of a row and its payload.
unfoldable pub framed : List ℕ → List ℕ
framed payload =
    format_magic
    ++ to_le_bytes 2 format_version
    ++ to_le_bytes checksum_len (checksum payload)
    ++ payload

module _ (encode : IdempotencyKey → List DurableMutation → StoreRevision → List ℕ)
    (to_bytes : PersistedRunSnapshot → Outcome (List ℕ) (List ℕ))
    (from_bytes : List ℕ → Outcome (List ℕ) (PersistedRunSnapshot × List ℕ)) where
  unfoldable pub encode_state : DurableRunState → Outcome StoreError (List ℕ)
  encode_state s =
      persisted_snapshot encode s
      >>= (λ snapshot.
          map_err (λ e. io_failure (codes "durable state encoding failed: " ++ e))
            (to_bytes snapshot))
      >>= λ payload. ok (framed payload)

  -- The decoding of a payload.
  unfoldable pub decode_payload : List ℕ → Applied
  decode_payload payload =
      map_err (λ e. data_corruption (invalid_payload e)) (from_bytes payload) >>= λ decoded.
      if not (is_empty decoded.1)
      then err (data_corruption trailing_bytes)
      else from_persisted_snapshot encode decoded.0

  unfoldable pub decode_state : List ℕ → Applied
  decode_state encoded =
      let version_offset = length format_magic in
      let checksum_offset = version_offset + 2 in
      let header_len = checksum_offset + checksum_len in
      let version = from_le_bytes (take 2 (drop version_offset encoded)) in
      let expected = from_le_bytes (take checksum_len (drop checksum_offset encoded)) in
      let payload = drop header_len encoded in
      if ltb (length encoded) header_len || not (starts_with encoded format_magic)
      then err (data_corruption invalid_header)
      else if not (version =ℕ format_version)
      then err (data_corruption (unsupported_version version))
      else if not (expected =ℕ checksum payload)
      then err (data_corruption checksum_mismatch)
      else decode_payload payload
