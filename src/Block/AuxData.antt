-- ===== src/Block/AuxData.antt =====
-- block.go: `AuxData`, its form in CBOR, and the memo.
use cardano_go.Block.Points.{list}
use cardano_go.Common.{
  Bool, Bytes, List, Option, Result, [], bytes_eq, codes, err, false, if◌then◌else◌, none, ok,
  or_fail, panic, some, suc, ℕ, ◌++◌, ◌>>=◌, ◌∷◌,
}
use cardano_go.Block.AuxValue.{
  Scalar, Kepts, text, slice, Kept, keep, pair, nil, plain, Decoded, uint, end, list, cons, same,
  Pairs,
}
use cardano_go.Block.KvSlice.{KvSlice, marshal_slice}
use cardano_go.Util.Chunks.{chunk_string}

-- `AuxData.Value`: nothing, bytes that are CBOR already, or a value.
pub data AuxData : Type 0 where
  unset : AuxData
  raw : Bytes → AuxData
  kept : Kept → AuxData

-- The CBOR package on what is no map: scalars, and the heads of arrays and of tags.
pub record Encoder : Type 0 where
  pub scalar_bytes : Scalar → Bytes
  pub array_head : ℕ → Bytes
  pub tag_head : ℕ → Bytes
  -- Whether the bytes that a `MarshalCBOR` gives are CBOR, which `cbor.Marshal` checks.
  pub well_formed : Bytes → Bool

-- Null of RFC 8949.
abbrev pub null_byte : ℕ
null_byte = 246

abbrev pub is_content : Scalar → Bool
is_content (text s) = bytes_eq s (codes "Content")
is_content _ = false

-- `len(m) == 2 && m[1].K == "Content"`, with the first value and the content.
abbrev pub as_tag : Kept → Option (Kept × Kept)
as_tag (slice (pair k v (pair l c end))) = if is_content l then some (v, c) else none
as_tag _ = none

-- The order in which Go visits a map.
abbrev pub MapOrder : Type 0
MapOrder = KvSlice Scalar (Option Bytes) → KvSlice Scalar (Option Bytes)

module _ (enc : Encoder) (order : MapOrder) where
  abbrev pub checked : Option Bytes → Option Bytes
  checked none = none
  checked (some b) = if enc.well_formed b then some b else none

  -- `cbor.Marshal` of a value, which calls `KVSlice.MarshalCBOR` of a slice; a nil slice is null.
  unfoldable mutual
    pub marshal : Kept → Option Bytes
    marshal (plain s) = some (enc.scalar_bytes s)
    marshal (list nil) = some (null_byte ∷ [])
    marshal (list (cons v vs)) = elim (marshal_list (cons v vs)) [
      | none ↦ none
      | some r ↦ some (enc.array_head r.0 ++ r.1)
    ]
    marshal (slice ps) =
        checked
          (marshal_slice same (λ k. some (enc.scalar_bytes k)) (λ v. v) order (marshal_pairs ps))

    -- The number of the elements, and their bytes.
    pub marshal_list : Kepts → Option (ℕ × Bytes)
    marshal_list nil = some (0, [])
    marshal_list (cons v vs) = elim (marshal v) [
      | none ↦ none
      | some b ↦ elim (marshal_list vs) [ none ↦ none | some r ↦ some (suc r.0, b ++ r.1) ]
    ]

    pub marshal_pairs : Pairs → KvSlice Scalar (Option Bytes)
    marshal_pairs end = []
    marshal_pairs (pair k v ps) = (k, marshal v) ∷ marshal_pairs ps

  -- `m[0].V.(uint64)` of the tag, which panics on another type.
  unfoldable pub marshal_tag : Kept → Kept → Result (Unit {0}) Bytes
  unfolding marshal
  marshal_tag (plain (uint n)) c = elim (marshal c) [
    | none ↦ err tt
    | some b ↦ ok (enc.tag_head n ++ b)
  ]
  marshal_tag _ c = panic

  -- `AuxData.MarshalCBOR`; `Cast` panics on a value of no type.
  unfoldable pub marshal_cbor : AuxData → Result (Unit {0}) Bytes
  unfolding marshal marshal_tag
  marshal_cbor unset = panic
  marshal_cbor (raw b) = ok b
  marshal_cbor (kept v) = elim (as_tag v) [
    | some (n, c) ↦ marshal_tag n c
    | none ↦ or_fail (marshal v) tt
  ]

  -- `AuxData.Hash`, with blake2b.
  unfoldable pub hash : (Bytes → Bytes) → AuxData → Result (Unit {0}) Bytes
  unfolding marshal_cbor
  hash sum256 a = marshal_cbor a >>= λ b. or_fail (checked (some b)) tt >>= λ c. ok (sum256 c)

-- `AuxData.UnmarshalCBOR`, on what the package decodes.
unfoldable pub unmarshal_cbor : Option Decoded → Option AuxData
unfolding keep
unmarshal_cbor none = none
unmarshal_cbor (some v) = some (kept (keep v))

abbrev pub texts : List Bytes → Kepts
texts [] = nil
texts (s ∷ ss) = cons (plain (text s)) (texts ss)

-- A `KVSlice` of one entry.
abbrev pub single : Scalar → Kept → Kept
single k v = slice (pair k v end)

abbrev pub maya_protocol_aux_key : ℕ
maya_protocol_aux_key = 6676

abbrev pub max_aux_data_string_size : ℕ
max_aux_data_string_size = 64

-- `AuxData.SetMemo`, on the runes of the memo; it leaves a nil pointer alone.
unfoldable pub set_memo : Bytes → Option AuxData → Option AuxData
set_memo memo none = none
set_memo memo (some a) = some (
    kept (
      slice (
        pair (text (codes "Tag")) (plain (uint 259)) (
          pair (text (codes "Content"))
            (single (uint 0) (
              single (uint 0) (
                single (uint maya_protocol_aux_key) (
                  single (text (codes "memo"))
                    (list (texts (chunk_string memo max_aux_data_string_size)))))))
            end))))
